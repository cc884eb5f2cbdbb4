-- ===== src/Privileged/Ticket.antt =====
-- src/privileged/managed-admin-ticket.ts. JSON, SHA-256 and Ed25519 are arguments.
use Prim.Native.Char.{code}
use remote_ops_mcp.Prelude.{
  ℕ, ◌+◌, ◌-◌, String, Bool, false, not, ◌&&◌, ◌||◌, Option, none, some, List, leb, ltb, eqb,
  if◌then◌else◌, all, length, text_length, any_code, all_codes, is_break, is_alphanumeric,
  is_lower_or_digit, starts_with,
}
use remote_ops_mcp.Privileged.Policy.{is_plain_cwd}

pub record Ticket : Type 0 where
  pub v : ℕ
  pub target_id : String
  pub device_id : String
  pub program : String
  pub argv : List String
  pub cwd : String
  pub timeout_ms : ℕ
  pub nonce : String
  pub issued_at : ℕ
  pub expires_at : ℕ

abbrev is_target_char : ℕ → Bool
is_target_char n = is_lower_or_digit n || eqb n b'-'

abbrev first_code : (ℕ → Bool) → String → Bool
first_code p String.[] = false
first_code p (String.◌∷◌ c s) = p (code c)

-- /^[a-z0-9][a-z0-9-]{1,max}$/ for `max` = 63
unfoldable pub is_target_id : ℕ → String → Bool
unfolding all_codes text_length
is_target_id max s =
    first_code is_lower_or_digit s
    && (all_codes is_target_char s && (leb 2 (text_length s) && leb (text_length s) (max + 1)))

-- [A-Za-z0-9_-]
abbrev is_device_char : ℕ → Bool
is_device_char n = is_alphanumeric n || (eqb n b'_' || eqb n b'-')

-- /^dev_[A-Za-z0-9_-]{8,80}$/: the prefix is four of the same characters.
unfoldable pub is_device_id : String → Bool
unfolding all_codes text_length
is_device_id s =
    starts_with s "dev_"
    && (all_codes is_device_char s && (leb 12 (text_length s) && leb (text_length s) 84))

-- [A-Za-z0-9_.+-]
abbrev is_program_char : ℕ → Bool
is_program_char n = is_alphanumeric n || (eqb n b'_' || (eqb n b'.' || (eqb n b'+' || eqb n b'-')))

-- /^[A-Za-z0-9_.+-]{1,80}$/
unfoldable pub is_program_name : String → Bool
unfolding all_codes text_length
is_program_name s = all_codes is_program_char s && (leb 1 (text_length s) && leb (text_length s) 80)

-- [a-f0-9]
abbrev is_hex : ℕ → Bool
is_hex n = (leb 48 n && leb n 57) || (leb 97 n && leb n 102)

-- /^[a-f0-9]{32,128}$/
unfoldable pub is_nonce : String → Bool
unfolding all_codes text_length
is_nonce s = all_codes is_hex s && (leb 32 (text_length s) && leb (text_length s) 128)

-- `byte_length` is Buffer.byteLength.
unfoldable pub is_plain_argument : (String → ℕ) → String → Bool
unfolding any_code
is_plain_argument byte_length arg = leb (byte_length arg) 16_384 && not (any_code is_break arg)

-- A value that should be a whole number: a natural number, or anything else.
pub data NumberInput : Type 0 where
  whole : ℕ → NumberInput
  other : NumberInput

-- The fields of the object that came in, as text; `argv` is `none` if it is no array.
pub record RawTicket : Type 0 where
  pub v : NumberInput
  pub target_id : String
  pub device_id : String
  pub program : String
  pub argv : Option (List String)
  pub cwd : String
  pub timeout_ms : NumberInput
  pub nonce : String
  pub issued_at : NumberInput
  pub expires_at : NumberInput

unfoldable pub is_timeout : ℕ → Bool
is_timeout n = leb 1_000 n && leb n 120_000

unfoldable pub is_lifetime : ℕ → ℕ → Bool
is_lifetime issued_at expires_at = ltb issued_at expires_at && leb (expires_at - issued_at) 120_000

-- The checks of `normalizeManagedAdminTicket` once the fields are read.
unfoldable pub is_well_formed : (String → ℕ) → Ticket → Bool
unfolding is_target_id is_device_id is_program_name all is_plain_argument is_plain_cwd is_timeout
    is_nonce is_lifetime
is_well_formed byte_length t =
    eqb t.v 1
    && (is_target_id 63 t.target_id
        && (is_device_id t.device_id
            && (is_program_name t.program
                && (leb (length t.argv) 80
                    && (all (is_plain_argument byte_length) t.argv
                        && (is_plain_cwd t.cwd
                            && (is_timeout t.timeout_ms
                                && (is_nonce t.nonce && is_lifetime t.issued_at t.expires_at))))))))

-- `none`: a field that should be a whole number or an array is not.
unfoldable pub read_numbers :
    RawTicket
    → NumberInput
    → Option (List String)
    → NumberInput
    → NumberInput
    → NumberInput
    → Option Ticket
read_numbers x (whole v) (some argv) (whole timeout_ms) (whole issued_at) (whole expires_at) =
    some (record {
      v = v;
      target_id = x.target_id;
      device_id = x.device_id;
      program = x.program;
      argv = argv;
      cwd = x.cwd;
      timeout_ms = timeout_ms;
      nonce = x.nonce;
      issued_at = issued_at;
      expires_at = expires_at;
    })
read_numbers x _ _ _ _ _ = none

-- `none`: it throws.
unfoldable pub normalize_managed_admin_ticket : (String → ℕ) → RawTicket → Option Ticket
unfolding read_numbers
normalize_managed_admin_ticket byte_length x =
    elim (read_numbers x x.v x.argv x.timeout_ms x.issued_at x.expires_at) [
      | none ↦ none
      | some t ↦ if is_well_formed byte_length t then some t else none
    ]

-- The object that a ticket is.
abbrev pub to_raw : Ticket → RawTicket
to_raw t = record {
  v = whole t.v;
  target_id = t.target_id;
  device_id = t.device_id;
  program = t.program;
  argv = some t.argv;
  cwd = t.cwd;
  timeout_ms = whole t.timeout_ms;
  nonce = t.nonce;
  issued_at = whole t.issued_at;
  expires_at = whole t.expires_at;
}

-- What the ticket code takes from the platform.
pub record Crypto : Type 0 where
  pub byte_length : String → ℕ
  -- JSON.stringify of a ticket
  pub json : Ticket → String
  -- the Ed25519 keys that a secret gives
  pub private_key : String → String
  pub public_key : String → String
  -- sign key message, in base64url; verify key message signature
  pub sign : String → String → String
  pub verify : String → String → String → Bool

-- `none`: a ticket that is not well formed throws.
unfoldable pub managed_admin_ticket_bytes : Crypto → Ticket → Option String
unfolding normalize_managed_admin_ticket
managed_admin_ticket_bytes c ticket =
    elim (normalize_managed_admin_ticket c.byte_length (to_raw ticket)) [
      | none ↦ none
      | some t ↦ some (c.json t)
    ]

-- A secret of fewer than 32 units throws, and so does a bad ticket.
unfoldable pub sign_managed_admin_ticket : Crypto → Ticket → String → Option String
unfolding managed_admin_ticket_bytes text_length
sign_managed_admin_ticket c ticket secret = elim (managed_admin_ticket_bytes c ticket) [
  | none ↦ none
  | some bytes ↦
      if ltb (text_length secret) 32 then none else some (c.sign (c.private_key secret) bytes)
]

-- /^[A-Za-z0-9_-]{40,200}$/
unfoldable pub is_signature_text : String → Bool
unfolding all_codes text_length
is_signature_text s =
    all_codes is_device_char s && (leb 40 (text_length s) && leb (text_length s) 200)

unfoldable pub verify_managed_admin_ticket : Crypto → Ticket → String → String → Bool
unfolding is_signature_text managed_admin_ticket_bytes
verify_managed_admin_ticket c ticket signature public_key =
    if is_signature_text signature
    then (elim (managed_admin_ticket_bytes c ticket) [
      | none ↦ false
      | some bytes ↦ c.verify public_key bytes signature
    ])
    else false

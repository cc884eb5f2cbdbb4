-- ===== src/Deepharness/Model.antt =====
-- The state of integrations/deepharness/persistent-grant-store.mjs, its file, and the platform.
use Prim.Native.Char.{code}
use remote_ops_mcp.Prelude.{
  ℕ, zero, suc, String, Bool, true, false, not, ◌&&◌, ◌||◌, Option, none, some, List, [], ◌∷◌, ◌==◌,
  leb, ltb, eqb, if◌then◌else◌, all, includes, length, text_length, all_codes, is_alphanumeric,
  append,
}
use remote_ops_mcp.Dict.{Dict}

pub record Identity : Type 0 where
  pub actor : String
  pub client_id : String
  pub session_id : String
  pub workspace_id : String
  pub lead_session_id : String

pub record Grant : Type 0 where
  pub identity : Identity
  pub actions : List String
  pub revision : String
  pub updated_at : ℕ
  pub revoked_at : Option ℕ

pub data Status : Type 0 where
  pending accepted : Status

pub record Delivery : Type 0 where
  pub identity : Identity
  pub payload_hash : String
  pub grant_revision : String
  pub status : Status
  pub receipt_id : String
  pub created_at : ℕ
  pub accepted_at : Option ℕ

pub record State : Type 0 where
  pub grants : Dict Grant
  pub deliveries : Dict Delivery

-- What `persistFile` did: the file was replaced; it failed and left the old file; it replaced the file
-- and then failed, in its last steps.
pub data Persisted : Type 0 where
  written kept replaced_and_failed : Persisted

-- The state in memory, the state in the file, and whether a write has failed.
pub record Process : Type 0 where
  pub state : State
  pub file : State
  pub faulted : Bool

-- The SHA-256, in hexadecimal, of the JSON text of an array of texts; and the bytes of a file that holds
-- the JSON text of a state.
pub record Platform : Type 0 where
  pub sha256_json : List String → String
  pub file_size : State → ℕ

abbrev pub max_file_bytes : ℕ
max_file_bytes = 8_388_608

abbrev pub max_grants : ℕ
max_grants = 1000

abbrev pub max_deliveries : ℕ
max_deliveries = 10_000

abbrev pub actions_known : List String
actions_known = "chat.read" ∷ "lead.instruct" ∷ "team.read" ∷ []

-- [A-Za-z0-9_.:-]
abbrev pub is_id_char : ℕ → Bool
is_id_char n = is_alphanumeric n || (eqb n b'_' || (eqb n b'.' || (eqb n b':' || eqb n b'-')))

unfoldable pub starts_alphanumeric : String → Bool
starts_alphanumeric String.[] = false
starts_alphanumeric (String.◌∷◌ c s) = is_alphanumeric (code c)

-- /^[A-Za-z0-9][A-Za-z0-9_.:-]{0,127}$/
unfoldable pub valid_id : String → Bool
unfolding starts_alphanumeric all_codes text_length
valid_id s = starts_alphanumeric s && (all_codes is_id_char s && leb (text_length s) 128)

-- /^[a-f0-9]{64}$/
unfoldable pub is_hash : String → Bool
unfolding all_codes text_length
is_hash s =
    all_codes (λ n. (leb 97 n && leb n 102) || (leb 48 n && leb n 57)) s && eqb (text_length s) 64

-- s.slice(0, n)
unfoldable pub first_chars : ℕ → String → String
first_chars zero s = ""
first_chars (suc n) String.[] = ""
first_chars (suc n) (String.◌∷◌ c s) = String.◌∷◌ c (first_chars n s)

-- oauth:CLIENT:SESSION, with 12 characters of the session
unfoldable pub actor_of : String → String → String
unfolding append first_chars
actor_of client_id session_id =
    append "oauth:" (append client_id (append ":" (first_chars 12 session_id)))

-- The tests of `identityOf`.
unfoldable pub is_identity : Identity → Bool
unfolding valid_id actor_of
is_identity i =
    (valid_id i.actor && (valid_id i.client_id && valid_id i.session_id))
    && ((valid_id i.workspace_id && valid_id i.lead_session_id)
        && i.actor == actor_of i.client_id i.session_id)

unfoldable pub identity_key : Platform → Identity → String
identity_key os i =
    os.sha256_json (i.actor ∷ i.client_id ∷ i.session_id ∷ i.workspace_id ∷ i.lead_session_id ∷ [])

unfoldable pub delivery_key : Platform → Identity → String → String
delivery_key os i idempotency_key = os.sha256_json (
    i.actor ∷ i.client_id ∷ i.session_id ∷ i.workspace_id ∷ i.lead_session_id ∷ idempotency_key
    ∷ [])

unfoldable pub has_duplicate : List String → Bool
unfolding includes
has_duplicate [] = false
has_duplicate (x ∷ xs) = includes x xs || has_duplicate xs

unfoldable pub is_unset : List String → Bool
is_unset [] = true
is_unset (x ∷ xs) = false

-- At least one action, all of them known, none twice.
unfoldable pub are_actions : List String → Bool
unfolding is_unset all includes has_duplicate
are_actions actions =
    not (is_unset actions)
    && (all (λ a. includes a actions_known) actions && not (has_duplicate actions))

abbrev pub max_safe_integer : ℕ
max_safe_integer = 9_007_199_254_740_991

abbrev pub is_safe_time : Option ℕ → Bool
is_safe_time none = true
is_safe_time (some t) = leb t max_safe_integer

unfoldable pub is_normal_grant : String → Grant → Bool
unfolding is_hash is_identity are_actions valid_id
is_normal_grant key g =
    (is_hash key && is_identity g.identity)
    && ((are_actions g.actions && valid_id g.revision)
        && (leb g.updated_at max_safe_integer && is_safe_time g.revoked_at))

-- The actor is not compared with the client and the session here.
unfoldable pub is_normal_delivery : String → Delivery → Bool
unfolding is_hash valid_id
is_normal_delivery key d =
    (is_hash key
      && (is_hash d.payload_hash && (valid_id d.grant_revision && valid_id d.receipt_id)))
    && (((valid_id d.identity.actor
            && (valid_id d.identity.client_id && valid_id d.identity.session_id))
          && (valid_id d.identity.workspace_id && valid_id d.identity.lead_session_id))
        && (leb d.created_at max_safe_integer && is_safe_time d.accepted_at))

unfoldable pub all_entries : {V : Type 0} → (String → V → Bool) → Dict V → Bool
all_entries p [] = true
all_entries p ((k, v) ∷ d) = p k v && all_entries p d

-- The tests of `normalize` on an object of the right shape.
unfoldable pub is_normal : State → Bool
unfolding all_entries is_normal_grant is_normal_delivery
is_normal st =
    (leb (length st.grants) max_grants && leb (length st.deliveries) max_deliveries)
    && (all_entries is_normal_grant st.grants && all_entries is_normal_delivery st.deliveries)

-- The file: absent; unreadable, no regular file or not of the right shape; or a state.
pub data File : Type 0 where
  absent unreadable : File
  holds : State → File

abbrev pub empty_state : State
empty_state = record { grants = []; deliveries = [] }

-- What an operation returns: a value, the code that `denied` throws, or the exception of a write.
pub data Done (A : Type 0) : Type 0 where
  done : A → Done A
  denied : String → Done A
  write_failed : Done A

-- loadFile; a new file is written for one that is absent, and `none` is an exception. A file that is too
-- long is refused here; a write does not look at the length.
unfoldable pub load_file : Platform → File → Persisted → Option Process
unfolding is_normal
load_file os absent written =
    some (record { state = empty_state; file = empty_state; faulted = false })
load_file os absent _ = none
load_file os unreadable how = none
load_file os (holds st) how =
    if ltb max_file_bytes (os.file_size st)
    then none
    else if is_normal st
    then some (record { state = st; file = st; faulted = false })
    else none

-- save: the state in memory changes only if the file was written.
unfoldable pub save : State → Persisted → Process → Process
save next written p = record { state = next; file = next; faulted = p.faulted }
save next kept p = record p { faulted = true }
save next replaced_and_failed p = record p { file = next; faulted = true }

abbrev pub is_written : Persisted → Bool
is_written written = true
is_written _ = false

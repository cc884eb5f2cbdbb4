-- ===== src/Docker/Json.antt =====
-- JavaScript values, as `JSON.parse` returns them, and the functions of the platform that the proxy
-- uses.
use remote_ops_mcp.Prelude.{
  ◌≡◌, ◌⊎◌, inl, inr, refl, ℕ, String, Bool, true, false, if◌then◌else◌, or_else, Option, none,
  some, List, [], ◌∷◌, ◌==◌,
}

mutual
  -- `other_number` is a number that is no natural number, with its text.
  pub data Json : Type 0 where
    undefined null : Json
    boolean : Bool → Json
    number : ℕ → Json
    other_number : String → Json
    text : String → Json
    array : Items → Json
    object : Fields → Json

  pub data Items : Type 0 where
    no_item : Items
    item : Json → Items → Items

  pub data Fields : Type 0 where
    no_field : Fields
    field : String → Json → Fields → Fields

-- The platform: decodeURIComponent, fs.realpathSync and fs.statSync(p).isFile() (`none`: it throws),
-- the decoding of UTF-8, JSON.parse of UTF-8 bytes, String(x), Number(x) where it is a natural number
-- (`none`: where it is not), Buffer.byteLength, SHA-256 in hexadecimal, toLowerCase, and
-- Buffer.from(JSON.stringify(x)).toString("base64url"). `semantic_script` is the text of
-- `PAPERCLIP_SEMANTIC_SCRIPT`.
pub record Host : Type 0 where
  pub decode_uri_component : String → Option String
  pub realpath : String → Option String
  pub is_file : String → Option Bool
  pub utf8 : List ℕ → String
  pub parse : List ℕ → Option Json
  pub to_text : Json → String
  pub to_natural : Json → Option ℕ
  pub byte_length : String → ℕ
  pub sha256 : String → String
  pub base64url : Json → String
  pub to_lower_case : String → String
  pub semantic_script : String

-- value[name], of an object with the fields; JSON.parse gives each name once.
unfoldable pub field_of : String → Fields → Json
field_of name no_field = undefined
field_of name (field n v rest) = let later = field_of name rest in if n == name then v else later

-- value.name; `none`: it throws, for a value that is null or undefined
unfoldable pub member : String → Json → Option Json
unfolding field_of
member name undefined = none
member name null = none
member name (object fields) = some (field_of name fields)
member name _ = some undefined

unfoldable pub to_list : Items → List Json
to_list no_item = []
to_list (item v rest) = v ∷ to_list rest

-- Array.isArray(value), and its items
unfoldable pub items_of : Json → Option (List Json)
unfolding to_list
items_of (array items) = some (to_list items)
items_of _ = none

-- typeof value === "string", and its text
abbrev pub string_of : Json → Option String
string_of (text s) = some s
string_of _ = none

-- typeof value === "number"
abbrev pub is_number : Json → Bool
is_number (number n) = true
is_number (other_number s) = true
is_number _ = false

-- value ?? other
abbrev pub or_value : Json → Json → Json
or_value undefined other = other
or_value null other = other
or_value value other = value

-- String(value ?? "")
abbrev pub text_or_empty : Host → Json → String
text_or_empty os value = os.to_text (or_value value (text ""))

-- The value of a field of a value that is not null.
unfoldable pub get : String → Json → Json
unfolding member
get name value = or_else (member name value) undefined

-- Is it null or undefined, so that reading a field throws?
abbrev pub is_nullish : Json → Bool
is_nullish undefined = true
is_nullish null = true
is_nullish _ = false

-- A value, or the message of the exception that was thrown.
pub data Made (A : Type 0) : Type 0 where
  made : A → Made A
  failed : String → Made A

infixl 5 ◌>>=◌
abbrev pub ◌>>=◌ : {A B : Type 0} → Made A → (A → Made B) → Made B
failed message >>= next = failed message
made value >>= next = next value

-- if (!test) throw new Error(message)
abbrev pub unless_thrown : {A : Type 0} → Bool → String → Made A → Made A
unless_thrown true message rest = rest
unless_thrown false message rest = failed message

pub Made-cases :
    {A : Type 0} (m : Made A) → ((a : A) × (m ≡ made a)) ⊎ ((e : String) × (m ≡ failed e))
Made-cases (made a) = inl (a, refl)
Made-cases (failed e) = inr (e, refl)

pub bind_made :
    {A B : Type 0} (m : Made A) (next : A → Made B) (b : B)
    → (m >>= next) ≡ made b
    → (a : A) × (m ≡ made a) × (next a ≡ made b)
bind_made (made a) next b h = (a, refl, h)
bind_made (failed e) next b h = absurd (cc)

-- ===== src/Http/Headers.antt =====
-- internal/server/http/server.go: the hop-by-hop headers that are not passed on. A header is what
-- `net/http` parses: canonical names with the values of their lines, in order.
pub mod Removal
use outway.Base.{
  ℕ, ◌+◌, ◌-◌, List, [], ◌∷◌, ◌++◌, Bool, true, false, not, ◌&&◌, ◌||◌, ◌==◌, leb, if◌then◌else◌,
  codes, text_eq, map,
}

abbrev pub Header : Type 0
Header = List (List ℕ × List (List ℕ))

-- A byte of a header's name: a letter, a digit or one of !#$%&'*+-.^_`|~.
abbrev pub is_token : ℕ → Bool
is_token c =
    (leb 65 c && leb c 90)
    || (leb 97 c && leb c 122)
    || (leb 48 c && leb c 57)
    || c == 33
    || (leb 35 c && leb c 39)
    || c == 42
    || c == 43
    || c == 45
    || c == 46
    || (leb 94 c && leb c 96)
    || c == 124
    || c == 126

unfoldable pub all_tokens : List ℕ → Bool
all_tokens [] = true
all_tokens (c ∷ s) = is_token c && all_tokens s

-- The first letter and those after a dash in upper case, the others in lower case.
unfoldable pub recase : Bool → List ℕ → List ℕ
recase upper [] = []
recase upper (c ∷ s) =
    (if upper && leb 97 c && leb c 122
      then c - 32
      else if not upper && leb 65 c && leb c 90
      then c + 32
      else c)
    ∷ recase (c == 45) s

-- `textproto.CanonicalMIMEHeaderKey`.
unfoldable pub canonical : List ℕ → List ℕ
unfolding all_tokens recase
canonical name = if all_tokens name then recase true name else name

-- `Get`: the value of the first line with the name, empty where there is none.
abbrev first_value : List (List ℕ) → List ℕ
first_value [] = []
first_value (v ∷ vs) = v

unfoldable pub get_header : List ℕ → Header → List ℕ
get_header name [] = []
get_header name ((k, vs) ∷ h) = if text_eq k name then first_value vs else get_header name h

-- `Del`.
unfoldable pub delete_header : List ℕ → Header → Header
delete_header name [] = []
delete_header name ((k, vs) ∷ h) =
    let rest = delete_header name h in if text_eq k (canonical name) then rest else (k, vs) ∷ rest

-- `strings.Split(s, ",")`.
abbrev extend : ℕ → List (List ℕ) → List (List ℕ)
extend c [] = (c ∷ []) ∷ []
extend c (part ∷ parts) = (c ∷ part) ∷ parts

unfoldable pub split_commas : List ℕ → List (List ℕ)
split_commas [] = [] ∷ []
split_commas (c ∷ s) = let rest = split_commas s in if c == 44 then [] ∷ rest else extend c rest

-- `strings.TrimSpace` on ASCII.
abbrev pub is_space : ℕ → Bool
is_space c = c == 32 || (leb 9 c && leb c 13)

unfoldable pub trim_left : List ℕ → List ℕ
trim_left [] = []
trim_left (c ∷ s) = if is_space c then trim_left s else c ∷ s

abbrev keep_unless_blank : ℕ → List ℕ → List ℕ
keep_unless_blank c [] = if is_space c then [] else c ∷ []
keep_unless_blank c (d ∷ s) = c ∷ d ∷ s

unfoldable pub trim_right : List ℕ → List ℕ
trim_right [] = []
trim_right (c ∷ s) = keep_unless_blank c (trim_right s)

abbrev pub trim_space : List ℕ → List ℕ
trim_space s = trim_right (trim_left s)

abbrev pub connection_name : List ℕ
connection_name = codes "Connection"

abbrev pub hop_headers : List (List ℕ)
hop_headers =
    connection_name
    ∷ codes "Proxy-Connection"
    ∷ codes "Keep-Alive"
    ∷ codes "Proxy-Authenticate"
    ∷ codes "Proxy-Authorization"
    ∷ codes "Te"
    ∷ codes "Trailer"
    ∷ codes "Transfer-Encoding"
    ∷ codes "Upgrade"
    ∷ []

abbrev pub delete_all : List (List ℕ) → Header → Header
delete_all [] h = h
delete_all (name ∷ names) h = delete_all names (delete_header name h)

-- The tokens that the first line of the Connection header names.
unfoldable pub connection_tokens : Header → List (List ℕ)
unfolding get_header split_commas
connection_tokens h =
    let conn = get_header connection_name h in if text_eq conn [] then [] else split_commas conn

unfoldable pub remove_hop_headers : Header → Header
unfolding connection_tokens delete_header
remove_hop_headers h =
    let tokens = connection_tokens h in
    delete_all (map trim_space tokens) (delete_all hop_headers h)

-- ===== src/Http/Transports.antt =====
-- internal/server/http/server.go: the transports of the proxy, one for each extension that a client
-- names, and at most 128 of these at a time.
pub mod Keys
pub mod Reuse
pub mod Eviction
pub mod Entries
use outway.Base.{
  ℕ, ◌+◌, List, [], ◌∷◌, Option, none, some, Bool, true, false, ◌&&◌, ◌==◌, leb, ltb, if◌then◌else◌,
  length,
}
use outway.Ext.{ExtensionType, ext_none, ext_ttl, ext_range, ext_session, Extension, no_extension}

abbrev pub max_transport_entries : ℕ
max_transport_entries = 128

-- An `http.Transport` by the order in which it was made, with the extension that its connections
-- are dialled with and the idle connections that it keeps.
pub record Transport : Type 0 where
  pub serial : ℕ
  pub extension : Extension
  pub max_idle : ℕ
  pub max_idle_per_host : ℕ

pub record TransportEntry : Type 0 where
  pub transport : Transport
  pub last_used : ℕ

-- `closed` lists the evicted transports, whose idle connections were closed; `made` counts the
-- transports made.
pub record TransportPool : Type 0 where
  pub default_transport : Transport
  pub entries : List (Extension × TransportEntry)
  pub clock : ℕ
  pub made : ℕ
  pub closed : List Transport

abbrev pub type_number : ExtensionType → ℕ
type_number ext_none = 0
type_number ext_ttl = 1
type_number ext_range = 2
type_number ext_session = 3

-- `==` on extensions, as keys of the map.
unfoldable pub extension_eq : Extension → Extension → Bool
extension_eq a b = type_number a.type == type_number b.type && a.value == b.value

abbrev pub is_none : Extension → Bool
is_none e = type_number e.type == 0

unfoldable pub new_transport : Extension → ℕ → Transport
new_transport extension serial =
    let none_named = is_none extension in
    record {
      serial = serial;
      extension = extension;
      max_idle = if none_named then 1024 else 16;
      max_idle_per_host = if none_named then 128 else 8;
    }

unfoldable pub new_transport_pool : TransportPool
unfolding new_transport
new_transport_pool = record {
  default_transport = new_transport no_extension 0;
  entries = [];
  clock = 0;
  made = 1;
  closed = [];
}

unfoldable pub find : Extension → List (Extension × TransportEntry) → Option TransportEntry
find e [] = none
find e ((k, entry) ∷ rest) = if extension_eq k e then some entry else find e rest

-- `entry.lastUsed = p.clock`, through the pointer that the map holds.
unfoldable pub touch :
    Extension → ℕ → List (Extension × TransportEntry) → List (Extension × TransportEntry)
touch e clock [] = []
touch e clock ((k, entry) ∷ rest) =
    let others = touch e clock rest in
    if extension_eq k e then (k, record entry { last_used = clock }) ∷ rest else (k, entry) ∷ others

-- The loop for the entry that was used the longest time ago.
unfoldable pub oldest_of :
    Option (Extension × TransportEntry)
    → List (Extension × TransportEntry)
    → Option (Extension × TransportEntry)
oldest_of oldest [] = oldest
oldest_of none (x ∷ rest) = oldest_of (some x) rest
oldest_of (some y) (x ∷ rest) =
    oldest_of (some (if ltb (x.1).last_used (y.1).last_used then x else y)) rest

unfoldable pub remove :
    Extension → List (Extension × TransportEntry) → List (Extension × TransportEntry)
remove e [] = []
remove e ((k, entry) ∷ rest) =
    let others = remove e rest in if extension_eq k e then rest else (k, entry) ∷ others

abbrev evicted : Option (Extension × TransportEntry) → TransportPool → TransportPool
evicted none p = p
evicted (some (k, entry)) p = record p {
  entries = remove k p.entries;
  closed = entry.transport ∷ p.closed;
}

unfoldable pub make_room : TransportPool → TransportPool
unfolding oldest_of remove
make_room p =
    if leb max_transport_entries (length p.entries) then evicted (oldest_of none p.entries) p else p

abbrev pub added : Extension → TransportPool → Transport × TransportPool
added e p =
    let t = new_transport e p.made in
    (
      t,
      record p {
        entries = (e, (record { transport = t; last_used = p.clock })) ∷ p.entries;
        made = p.made + 1;
      },
    )

-- `Get`, under the lock of the pool.
unfoldable pub get : Extension → TransportPool → Transport × TransportPool
unfolding find touch make_room new_transport
get e p =
    let ticked = record p { clock = p.clock + 1 } in
    if is_none e then (p.default_transport, p) else elim (find e p.entries) [
      | some entry ↦ (entry.transport, record ticked { entries = touch e ticked.clock p.entries })
      | none ↦ added e (make_room ticked)
    ]

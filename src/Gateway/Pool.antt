-- ===== src/Gateway/Pool.antt =====
-- main.rs: `ConnectionPool`, the connections to nodes that are kept. A key is the bytes of a node's
-- public key, the time is a number, and whether a connection has closed is asked of the library.
pub mod Bounded
use mjolnir.Base.{
  ℕ, ◌-◌, Bool, true, false, not, Option, none, some, List, [], ◌∷◌, Str, eq_str, if◌then◌else◌,
  ltb, leb, length, find, filter,
}

pub record CachedConnection (Conn : Type 0) : Type 0 where
  pub key : Str
  pub conn : Conn
  pub last_used : ℕ

-- The map `cache`, as its entries, and the settings.
pub record ConnectionPool (Conn : Type 0) : Type 0 where
  pub cache : List (CachedConnection Conn)
  pub ttl : ℕ
  pub max_size : ℕ

module _ {Conn : Type 0} where
  abbrev pub has_key : Str → CachedConnection Conn → Bool
  has_key key e = eq_str e.key key

  abbrev pub without : Str → List (CachedConnection Conn) → List (CachedConnection Conn)
  without key cache = filter (λ e. not (has_key key e)) cache

  unfoldable pub new_pool : ℕ → ℕ → ConnectionPool Conn
  new_pool ttl max_size = record { cache = []; ttl = ttl; max_size = max_size }

  -- `evict`
  unfoldable pub evict : Str → ConnectionPool Conn → ConnectionPool Conn
  evict key p = record p { cache = without key p.cache }

  -- The write to `last_used` of the entry that was found.
  unfoldable pub use_at : ℕ → Str → List (CachedConnection Conn) → List (CachedConnection Conn)
  use_at now key [] = []
  use_at now key (e ∷ es) =
      (if has_key key e then record e { last_used = now } else e) ∷ use_at now key es

  unfoldable pub get :
      (Conn → Bool) → ℕ → Str → ConnectionPool Conn → Option Conn × ConnectionPool Conn
  unfolding evict use_at
  get closed now key p = elim (find (has_key key) p.cache) [
    | none ↦ (none, p)
    | some e ↦
        if ltb p.ttl (now - e.last_used)
        then (none, evict key p)
        else if closed e.conn
        then (none, evict key p)
        else (some e.conn, record p { cache = use_at now key p.cache })
  ]

  -- `min_by_key`: the first of the entries that were not used for the longest time.
  unfoldable pub oldest :
      CachedConnection Conn → List (CachedConnection Conn) → CachedConnection Conn
  oldest e [] = e
  oldest e (f ∷ fs) = if ltb f.last_used e.last_used then oldest f fs else oldest e fs

  abbrev make_room : List (CachedConnection Conn) → List (CachedConnection Conn)
  make_room [] = []
  make_room (e ∷ es) = without (oldest e es).key (e ∷ es)

  unfoldable pub insert : ℕ → Str → Conn → ConnectionPool Conn → ConnectionPool Conn
  unfolding oldest
  insert now key conn p =
      let room = if leb p.max_size (length p.cache) then make_room p.cache else p.cache in
      record p { cache = record { key = key; conn = conn; last_used = now } ∷ without key room }

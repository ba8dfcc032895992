-- ===== src/Service/Cache.antt =====
-- agent-core/caching/response_cache.py and caching/invalidation.py. Times are whole ticks of the clock.
-- A Python set or dict is a list, whose order the code does not look at.
pub mod Index
use realityai_agents.Prelude.{
  ℕ, String, Bool, true, false, not, ◌+◌, Option, none, some, List, [], ◌∷◌, ◌++◌, ◌==◌,
  if◌then◌else◌, ltb, length, contains, lookup, keep,
}

pub record CacheEntry : Type 0 where
  pub response : String
  pub sources : List String
  pub timestamp : ℕ
  pub course_ids : List String

pub record ResponseCache : Type 0 where
  pub store : List (String × (CacheEntry × ℕ))
  pub ttl : ℕ
  pub course_index : List (String × List String)

abbrev pub new_cache : ℕ → ResponseCache
new_cache ttl = record { store = []; ttl = ttl; course_index = [] }

module _ {ℓ} {V : Type ℓ} where
  -- `del d[k]`, `d.pop(k, …)`
  pub remove : String → List (String × V) → List (String × V)
  remove k [] = []
  remove k ((j, v) ∷ d) = let rest = remove k d in if j == k then rest else (j, v) ∷ rest

  -- `d[k] = v`
  pub store_at : String → V → List (String × V) → List (String × V)
  unfolding remove
  store_at k v d = (k, v) ∷ remove k d

-- `s.add(k)`, `s.discard(k)`
abbrev pub add_key : String → List String → List String
add_key k ks = if contains k ks then ks else k ∷ ks

pub discard : String → List String → List String
discard k [] = []
discard k (j ∷ ks) = let rest = discard k ks in if j == k then rest else j ∷ rest

abbrev pub keys_of : Option (List String) → List String
keys_of none = []
keys_of (some ks) = ks

-- The loop of `set` over the entry's course ids.
pub index_courses : String → List String → List (String × List String) → List (String × List String)
unfolding store_at
index_courses key [] index = index
index_courses key (cid ∷ cids) index =
    index_courses key cids (store_at cid (add_key key (keys_of (lookup cid index))) index)

abbrev pub unindex_at :
    String
    → String
    → List (String × List String)
    → Option (List String)
    → List (String × List String)
unindex_at key cid index none = index
unindex_at key cid index (some ks) = store_at cid (discard key ks) index

-- The loop of `_evict`.
pub unindex_courses :
    String → List String → List (String × List String) → List (String × List String)
unfolding store_at discard
unindex_courses key [] index = index
unindex_courses key (cid ∷ cids) index =
    unindex_courses key cids (unindex_at key cid index (lookup cid index))

pub evict : String → CacheEntry → ResponseCache → ResponseCache
unfolding remove unindex_courses
evict key entry c = record c {
  store = remove key c.store;
  course_index = unindex_courses key entry.course_ids c.course_index;
}

pub get_found :
    ℕ → String → Option (CacheEntry × ℕ) → ResponseCache → Option CacheEntry × ResponseCache
unfolding evict
get_found now key none c = (none, c)
get_found now key (some (entry, expires_at)) c =
    if ltb expires_at now then (none, evict key entry c) else (some entry, c)

unfoldable pub get : ℕ → String → ResponseCache → Option CacheEntry × ResponseCache
unfolding get_found
get now key c = get_found now key (lookup key c.store) c

unfoldable pub set : ℕ → String → CacheEntry → ResponseCache → ResponseCache
unfolding store_at index_courses
set now key entry c = record c {
  store = store_at key (entry, now + c.ttl) c.store;
  course_index = index_courses key entry.course_ids c.course_index;
}

abbrev pub has : String → List (String × (CacheEntry × ℕ)) → Bool
has key store = elim (lookup key store) [ none ↦ false | some e ↦ true ]

-- The loop of `invalidate_course`: the store without the keys, and how many were there.
pub drop_keys :
    List String → List (String × (CacheEntry × ℕ)) → ℕ → List (String × (CacheEntry × ℕ)) × ℕ
unfolding remove
drop_keys [] store count = (store, count)
drop_keys (key ∷ ks) store count =
    let there = has key store in
    drop_keys ks (if there then remove key store else store) (if there then count + 1 else count)

unfoldable pub invalidate_course : String → ResponseCache → ResponseCache × ℕ
unfolding drop_keys
invalidate_course cid c =
    let (store, count) = drop_keys (keys_of (lookup cid c.course_index)) c.store 0 in
    (record c { store = store; course_index = remove cid c.course_index }, count)

unfoldable pub flush : ResponseCache → ResponseCache × ℕ
flush c = (record c { store = []; course_index = [] }, length c.store)

unfoldable pub size : ResponseCache → ℕ
size c = length c.store

abbrev pub non_cacheable_types : List String
non_cacheable_types = "tutoring" ∷ "planning" ∷ []

unfoldable pub is_cacheable : String → Bool
is_cacheable query_type = not (contains query_type non_cacheable_types)

-- ===== src/Service/Cache/Index.antt =====
-- The secondary index of the cache: it knows every stored entry under each of its courses.
use realityai_agents.Prelude.{
  ℕ, String, ◌≡◌, refl, sym, ◌∙◌, ◌+◌, ◌⊎◌, inl, inr, ◌==◌, eq_iff, test_refl, Bool, true, false,
  ◌||◌, Option, none, some, List, [], ◌∷◌, arith, ltb, contains, lookup, Bool-cases, Option-cases,
  if◌then◌else◌,
}
use realityai_agents.Service.Cache.{
  CacheEntry, ResponseCache, new_cache, remove, store_at, add_key, discard, keys_of, index_courses,
  unindex_courses, unindex_at, get_found, get, set, has, drop_keys, invalidate_course, flush,
}

module _ {ℓ} {V : Type ℓ} where
  pub lookup-remove :
      (k j : String) (d : List (String × V))
      → lookup j (remove k d) ≡ (if k == j then none else lookup j d)
  unfolding remove
  lookup-remove k j [] = ground arith
  lookup-remove k j ((i, v) ∷ d) =
      ground (arith, eq_iff k j, eq_iff i k, eq_iff i j, lookup-remove k j d)

  pub lookup-store_at :
      (k j : String) (v : V) (d : List (String × V))
      → lookup j (store_at k v d) ≡ (if k == j then some v else lookup j d)
  unfolding store_at
  lookup-store_at k j v d = ground (arith, lookup-remove k j d)

-- The index lists `key` under the course.
abbrev pub Indexed : List (String × List String) → String → String → Type 0
Indexed index cid key = contains key (keys_of (lookup cid index)) ≡ true

-- Every stored entry is listed under each of its courses.
abbrev pub IsIndexed : ResponseCache → Type 0
IsIndexed c =
    (key cid : String) (entry : CacheEntry) (expires : ℕ)
    → lookup key c.store ≡ some (entry, expires)
    → contains cid entry.course_ids ≡ true
    → Indexed c.course_index cid key

contains-add_key :
    (k j : String) (ks : List String) → contains j (add_key k ks) ≡ (k == j || contains j ks)
contains-add_key k j ks = elim (Bool-cases (contains k ks)) [
  | inl old ↦
      rw old (elim (Bool-cases (k == j)) [ inl e ↦ rw (e, ← (eq_iff k j).0 e) old | inr e ↦ rw e ])
  | inr new ↦ rw new
]

contains-discard :
    (k j : String) (ks : List String) → (k == j) ≡ false → contains j (discard k ks) ≡ contains j ks
unfolding discard
contains-discard k j [] h = refl
contains-discard k j (i ∷ ks) h =
    ground (arith, eq_iff i k, eq_iff i j, eq_iff k j, contains-discard k j ks)

add_course-Indexed :
    (key c : String) (index : List (String × List String)) (cid k : String)
    → (((k ≡ key) × ((c == cid) ≡ true)) ⊎ Indexed index cid k)
    → Indexed (store_at c (add_key key (keys_of (lookup c index))) index) cid k
add_course-Indexed key c index cid k h =
    rw (lookup-store_at c cid _ index) (elim (Bool-cases (c == cid)) [
      | inl same ↦
          rw (same, contains-add_key key k (keys_of (lookup c index)))
            (elim h [
              | inl (e, _) ↦ rw (e, test_refl key)
              | inr old ↦
                  let there : contains k (keys_of (lookup c index)) ≡ true =
                    rw ((eq_iff c cid).0 same) old in
                  ground arith
            ])
      | inr other ↦ rw other (elim h [ inl (_, e) ↦ cc | inr old ↦ old ])
    ])

-- What was listed stays listed, and the key is listed under each of the given courses.
index_courses-Indexed :
    (key : String) (cids : List String) (index : List (String × List String)) (cid k : String)
    → ((k ≡ key) × (contains cid cids ≡ true)) ⊎ Indexed index cid k
    → Indexed (index_courses key cids index) cid k
unfolding index_courses
index_courses-Indexed key [] index cid k (inl (e, h)) = cc
index_courses-Indexed key [] index cid k (inr h) = h
index_courses-Indexed key (c ∷ cids) index cid k h =
    let added = store_at c (add_key key (keys_of (lookup c index))) index in
    let go = index_courses-Indexed key cids added cid k in
    elim h [
      | inr old ↦ go (inr (add_course-Indexed key c index cid k (inr old)))
      | inl (e, m) ↦ elim (Bool-cases (c == cid)) [
        | inl same ↦ go (inr (add_course-Indexed key c index cid k (inl (e, same))))
        | inr other ↦ go (inl (e, rw other at m))
      ]
    ]

-- Only the evicted key leaves the index.
unindex_courses-Indexed :
    (key : String) (cids : List String) (index : List (String × List String)) (cid k : String)
    → (key == k) ≡ false
    → Indexed index cid k
    → Indexed (unindex_courses key cids index) cid k
unfolding unindex_courses
unindex_courses-Indexed key [] index cid k ne h = h
unindex_courses-Indexed key (c ∷ cids) index cid k ne h =
    unindex_courses-Indexed key cids (unindex_at key c index (lookup c index)) cid k ne
      (elim (Option-cases (lookup c index)) [
        | inl absent ↦ rw absent h
        | inr (ks, found) ↦
            rw (found, lookup-store_at c cid (discard key ks) index)
              (elim (Bool-cases (c == cid)) [
                | inl same ↦
                    rw (same, contains-discard key k ks ne)
                      (rw (← (eq_iff c cid).0 same, found) at h)
                | inr other ↦ rw other h
              ])
      ])

pub new_cache-IsIndexed : (ttl : ℕ) → IsIndexed (new_cache ttl)
new_cache-IsIndexed ttl key cid entry expires e h = cc

-- Storing an entry keeps the index complete, also over an entry of the same key.
pub set-IsIndexed :
    (now : ℕ) (key : String) (entry : CacheEntry) (c : ResponseCache)
    → IsIndexed c
    → IsIndexed (set now key entry c)
unfolding set
set-IsIndexed now key entry c inv k cid e x found member =
    index_courses-Indexed key entry.course_ids c.course_index cid k (elim (Bool-cases (key == k)) [
      | inl same ↦
          let e' : some (entry, now + c.ttl) ≡ some (e, x) =
            rw (lookup-store_at key k (entry, now + c.ttl) c.store, same) at found in
          inl (sym ((eq_iff key k).0 same), ground arith)
      | inr other ↦ inr (
          inv k cid e x (rw (lookup-store_at key k (entry, now + c.ttl) c.store, other) at found)
            member)
    ])

get_found-IsIndexed :
    (now : ℕ) (key : String) (found : Option (CacheEntry × ℕ)) (c : ResponseCache)
    → IsIndexed c
    → IsIndexed (get_found now key found c).1
unfolding get_found
get_found-IsIndexed now key none c inv = inv
get_found-IsIndexed now key (some (entry, expires)) c inv = elim (Bool-cases (ltb expires now)) [
  | inr fresh ↦ rw fresh inv
  | inl old ↦ rw old λ k cid e x found member. elim (Bool-cases (key == k)) [
    | inl same ↦ absurd (ground (arith, lookup-remove key k c.store))
    | inr other ↦
        unindex_courses-Indexed key entry.course_ids c.course_index cid k other
          (inv k cid e x (rw (lookup-remove key k c.store, other) at found) member)
  ]
]

-- A read keeps the index complete, also where it evicts.
pub get-IsIndexed :
    (now : ℕ) (key : String) (c : ResponseCache) → IsIndexed c → IsIndexed (get now key c).1
unfolding get
get-IsIndexed now key c inv = get_found-IsIndexed now key (lookup key c.store) c inv

drop_one :
    (j k : String) (store : List (String × (CacheEntry × ℕ))) (b : Bool)
    → has j store ≡ b
    → lookup k (if b then remove j store else store) ≡ (if j == k then none else lookup k store)
drop_one j k store true h = lookup-remove j k store
drop_one j k store false h = elim (Bool-cases (j == k)) [
  | inl same ↦ rw (same, ← (eq_iff j k).0 same) (ground arith)
  | inr other ↦ rw other
]

drop_keys-lookup :
    (ks : List String) (store : List (String × (CacheEntry × ℕ))) (n : ℕ) (k : String)
    → lookup k (drop_keys ks store n).0 ≡ (if contains k ks then none else lookup k store)
unfolding drop_keys
drop_keys-lookup [] store n k = refl
drop_keys-lookup (j ∷ ks) store n k =
    drop_keys-lookup ks _ _ k ∙ ground (arith, drop_one j k store (has j store) refl)

-- Invalidating a course removes exactly the keys that the index lists under it.
pub invalidate_course-lookup :
    (cid : String) (c : ResponseCache) (k : String)
    → lookup k (invalidate_course cid c).0.store
      ≡ (if contains k (keys_of (lookup cid c.course_index)) then none else lookup k c.store)
unfolding invalidate_course
invalidate_course-lookup cid c k =
    drop_keys-lookup (keys_of (lookup cid c.course_index)) c.store 0 k

-- With a complete index, no entry of the course is left after its invalidation.
pub invalidate_course_complete :
    (cid : String) (c : ResponseCache)
    → IsIndexed c
    → (k : String) (entry : CacheEntry) (expires : ℕ)
    → lookup k (invalidate_course cid c).0.store ≡ some (entry, expires)
    → contains cid entry.course_ids ≡ false
invalidate_course_complete cid c inv k entry expires found =
    elim (Bool-cases (contains k (keys_of (lookup cid c.course_index)))) [
      | inl listed ↦ let gone = rw (invalidate_course-lookup cid c k, listed) at found in cc
      | inr unlisted ↦
          let kept = rw (invalidate_course-lookup cid c k, unlisted) at found in
          elim (Bool-cases (contains cid entry.course_ids)) [
            | inr no_member ↦ no_member
            | inl member ↦ let listed = inv k cid entry expires kept member in cc
          ]
    ]

-- An invalidation keeps the index complete for what stays in the store.
pub invalidate_course-IsIndexed :
    (cid : String) (c : ResponseCache) → IsIndexed c → IsIndexed (invalidate_course cid c).0
invalidate_course-IsIndexed cid c inv k j entry expires found member =
    elim (Bool-cases (contains k (keys_of (lookup cid c.course_index)))) [
      | inl listed ↦ let gone = rw (invalidate_course-lookup cid c k, listed) at found in cc
      | inr unlisted ↦
          let kept = rw (invalidate_course-lookup cid c k, unlisted) at found in
          let listed = inv k j entry expires kept member in
          unfold invalidate_course in
          rw (lookup-remove cid j c.course_index) (elim (Bool-cases (cid == j)) [
            | inl same ↦ let clash = rw ((eq_iff cid j).0 same) at unlisted in cc
            | inr other ↦ rw other listed
          ])
    ]

-- Before it expires, an entry is read as it was stored; after that it is a miss.
pub get-set_self :
    (now later : ℕ) (key : String) (entry : CacheEntry) (c : ResponseCache)
    → (get later key (set now key entry c)).0
      ≡ (if ltb (now + c.ttl) later then none else some entry)
unfolding get set get_found
get-set_self now later key entry c =
    rw (lookup-store_at key key (entry, now + c.ttl) c.store, test_refl key) (ground arith)

-- What can happen to a cache.
pub data Op : Type 0 where
  read_at : ℕ → String → Op
  write_at : ℕ → String → CacheEntry → Op
  invalidate : String → Op
  clear : Op

abbrev pub step : Op → ResponseCache → ResponseCache
step (read_at now key) c = (get now key c).1
step (write_at now key entry) c = set now key entry c
step (invalidate cid) c = (invalidate_course cid c).0
step clear c = (flush c).0

abbrev pub after_ops : List Op → ResponseCache → ResponseCache
after_ops [] c = c
after_ops (op ∷ ops) c = after_ops ops (step op c)

after_ops-IsIndexed :
    (ops : List Op) (c : ResponseCache) → IsIndexed c → IsIndexed (after_ops ops c)
after_ops-IsIndexed [] c inv = inv
after_ops-IsIndexed (read_at now key ∷ ops) c inv =
    after_ops-IsIndexed ops _ (get-IsIndexed now key c inv)
after_ops-IsIndexed (write_at now key entry ∷ ops) c inv =
    after_ops-IsIndexed ops _ (set-IsIndexed now key entry c inv)
after_ops-IsIndexed (invalidate cid ∷ ops) c inv =
    after_ops-IsIndexed ops _ (invalidate_course-IsIndexed cid c inv)
after_ops-IsIndexed (clear ∷ ops) c inv =
    after_ops-IsIndexed ops _ (unfold flush in λ key cid entry expires e h. cc)

-- After any operations on a new cache, the invalidation of a course leaves no entry in the store that
-- names the course.
pub invalidate_course_leaves_none :
    (ttl : ℕ) (ops : List Op) (cid key : String) (entry : CacheEntry) (expires : ℕ)
    → lookup key (invalidate_course cid (after_ops ops (new_cache ttl))).0.store
      ≡ some (entry, expires)
    → contains cid entry.course_ids ≡ false
invalidate_course_leaves_none ttl ops cid key entry expires =
    invalidate_course_complete cid (after_ops ops (new_cache ttl))
      (after_ops-IsIndexed ops (new_cache ttl) (new_cache-IsIndexed ttl)) key entry expires

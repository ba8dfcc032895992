-- ===== src/Tests/Service.antt =====
-- The cache and the rate limiter at concrete operations.
use realityai_agents.Prelude.{
  ℕ, String, ◌≡◌, refl, true, false, some, List, [], ◌∷◌, contains, arith,
}
use realityai_agents.Service.Cache.{CacheEntry, new_cache, get, set, invalidate_course}
use realityai_agents.Service.Cache.Index.{
  Op, read_at, write_at, get-set_self, invalidate_course_leaves_none,
}
use realityai_agents.Service.RateLimit.{new_limiter}
use realityai_agents.Service.RateLimit.History.{answers, reference, answers-reference}

abbrev entry : List String → CacheEntry
entry courses = record { response = "42"; sources = []; timestamp = 0; course_ids = courses }

get-set_self_example :
    (get 4 "k" (set 1 "k" (entry ("CS101" ∷ [])) (new_cache 10))).0 ≡ some (entry ("CS101" ∷ []))
get-set_self_example = get-set_self 1 4 "k" (entry ("CS101" ∷ [])) (new_cache 10)

abbrev history : List Op
history =
    write_at 1 "a" (entry ("CS101" ∷ []))
    ∷ write_at 2 "b" (entry ("CS201" ∷ []))
    ∷ read_at 3 "a"
    ∷ []

-- What an invalidation leaves is an entry of the other course.
invalidate_course_leaves_none_example : contains "CS101" ("CS201" ∷ []) ≡ false
unfolding get set invalidate_course
invalidate_course_leaves_none_example =
    invalidate_course_leaves_none 10 history "CS101" "b" (entry ("CS201" ∷ [])) 12 refl

abbrev calls : List (ℕ × String)
calls = (1, "ip:a") ∷ (2, "ip:a") ∷ (3, "ip:a") ∷ (3, "ip:b") ∷ (70, "ip:a") ∷ []

answers-reference_example : answers calls (new_limiter 2 60) ≡ reference 2 60 calls []
answers-reference_example =
    answers-reference 2 60 0 calls
      (omega arith, (omega arith, (omega arith, (omega arith, (omega arith, tt)))))

-- The third call in the window is limited; another client, or a later call, is not.
reference_run : reference 2 60 calls [] ≡ false ∷ false ∷ true ∷ false ∷ false ∷ []
reference_run = refl

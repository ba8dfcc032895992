-- ===== src/Inner/Audit/Trail.antt =====
-- The audit store: each id once, and what a persisted record keeps.
use realityai_agents.Prelude.{
  String, ◌≡◌, refl, inl, inr, ◌==◌, eq_iff, test_refl, true, false, ◌||◌, List, [], ◌∷◌, ◌++◌,
  arith, contains, Bool-cases,
}
use realityai_agents.Inner.Schemas.{AuditRecord}
use realityai_agents.Inner.Audit.{AuditStore, persist_audit_record}

abbrev pub ids : List AuditRecord → List String
ids [] = []
ids (r ∷ rs) = r.audit_id ∷ ids rs

abbrev pub NoRepeat : List String → Type 0
NoRepeat [] = Unit
NoRepeat (k ∷ ks) = (contains k ks ≡ false) × NoRepeat ks

-- The persisted ids are those of the log, and none of them is logged twice.
pub record IsFaithful (s : AuditStore) : Type 0 where
  pub same : (k : String) → contains k s.persisted_ids ≡ contains k (ids s.log)
  pub once : NoRepeat (ids s.log)

contains-snoc :
    (k : String) (rs : List AuditRecord) (r : AuditRecord)
    → contains k (ids (rs ++ r ∷ [])) ≡ (r.audit_id == k || contains k (ids rs))
contains-snoc k [] r = refl
contains-snoc k (q ∷ rs) r = ground (arith, contains-snoc k rs r)

NoRepeat-snoc :
    (rs : List AuditRecord) (r : AuditRecord)
    → NoRepeat (ids rs)
    → contains r.audit_id (ids rs) ≡ false
    → NoRepeat (ids (rs ++ r ∷ []))
NoRepeat-snoc [] r h n = (refl, tt)
NoRepeat-snoc (q ∷ rs) r (a, h) n = (
  ground (
    arith,
    contains-snoc q.audit_id rs r,
    eq_iff q.audit_id r.audit_id,
    eq_iff r.audit_id q.audit_id,
  ),
  NoRepeat-snoc rs r h (ground arith),
)

-- Persisting any record keeps the store faithful: the persisted ids stay those of the log, each
-- logged once.
pub persist_audit_record-IsFaithful :
    (r : AuditRecord) (s : AuditStore) → IsFaithful s → IsFaithful (persist_audit_record r s)
unfolding persist_audit_record
persist_audit_record-IsFaithful r s h = elim (Bool-cases (contains r.audit_id s.persisted_ids)) [
  | inl old ↦ rw old h
  | inr new ↦ rw new (record {
    same = λ k. ground (arith, h.same k, contains-snoc k s.log r);
    once = NoRepeat-snoc s.log r h.once (ground (arith, h.same r.audit_id));
  })
]

-- The log has one record more, at its end, and its id is taken; with an id that is taken already
-- nothing changes.
abbrev pub Logged : AuditRecord → AuditStore → AuditStore → Type 0
Logged r s s' =
    (contains r.audit_id s.persisted_ids ≡ false
      → (s'.log ≡ s.log ++ r ∷ []) × (contains r.audit_id s'.persisted_ids ≡ true))
    × (contains r.audit_id s.persisted_ids ≡ true → s' ≡ s)

pub persist_audit_record-Logged :
    (r : AuditRecord) (s : AuditStore) → Logged r s (persist_audit_record r s)
unfolding persist_audit_record
persist_audit_record-Logged r s =
    (λ new. rw new (refl, rw (test_refl r.audit_id) refl), λ old. rw old refl)

-- ===== src/Autonomy/Approvals/Decisions.antt =====
-- The decisions on a request (approvals.py).
use niceone_obsidian.Prelude.{
  ℕ, ◌<◌, String, ◌≡◌, refl, true, false, Option, none, some, List, [], ◌∷◌, arith, str_eq_iff,
  str_eq_refl, string_eq,
}
use niceone_obsidian.Prelude.Dict.{get, get-set, contains}
use niceone_obsidian.Prelude.Exec.{ok}
use niceone_obsidian.Autonomy.Approvals.{
  ApprovalDecision, ApprovalRequest, ApprovalStore, create, decide, decide_found, is_pending,
  as_decided, as_expired, find_approval,
}

-- A call of the store that may write.
pub data Operation : Type 0 where
  creates : ApprovalRequest → Operation
  decides : ℕ → String → ApprovalDecision → String → Operation

unfoldable pub perform : Operation → ApprovalStore → ApprovalStore
perform (creates r) store = (create r store).1
perform (decides now i d actor) store = (decide now i d actor store).1

unfoldable pub perform_all : List Operation → ApprovalStore → ApprovalStore
perform_all [] store = store
perform_all (o ∷ os) store = perform_all os (perform o store)

settled_step :
    (o : Operation) (store : ApprovalStore) (i : String) (r : ApprovalRequest)
    → find_approval i store ≡ some r
    → is_pending r.decision ≡ false
    → find_approval i (perform o store) ≡ some r
unfolding perform create decide find_approval contains
settled_step (creates q) store i r h p =
    ground (arith, get-set store q.approval_id i q, str_eq_iff q.approval_id i)
settled_step (decides now j d actor) store i r h p = go (get store j) refl
  where
    go :
        (o : Option ApprovalRequest)
        → get store j ≡ o
        → get (decide_found now j d actor o store).1 i ≡ some r
    go none e = h
    go (some q) e = ground (
      arith,
      get-set store j i (as_expired q),
      get-set store j i (as_decided now d actor q),
      str_eq_iff j i,
      h,
      p,
      e,
    )

-- A request that is approved, rejected or expired stays as it is, whatever requests are made and
-- decided afterwards.
decided_final :
    (os : List Operation) (store : ApprovalStore) (i : String) (r : ApprovalRequest)
    → find_approval i store ≡ some r
    → is_pending r.decision ≡ false
    → find_approval i (perform_all os store) ≡ some r
unfolding perform_all
decided_final [] store i r h p = h
decided_final (o ∷ os) store i r h p =
    decided_final os (perform o store) i r (settled_step o store i r h p) p

-- A decision that is accepted was made on a pending request before its expiry, and is what the
-- store then holds.
decide_accepted :
    (now : ℕ) (i : String) (d : ApprovalDecision) (actor : String) (store store' : ApprovalStore)
    (r : ApprovalRequest)
    → decide now i d actor store ≡ (ok r, store')
    → (q : ApprovalRequest) × (find_approval i store ≡ some q)
      × (is_pending q.decision ≡ true)
      × (now < q.expires_at)
      × (r ≡ as_decided now d actor q)
      × (find_approval i store' ≡ some r)
unfolding decide find_approval
decide_accepted now i d actor store store' r h = go (get store i) refl h
  where
    go :
        (o : Option ApprovalRequest)
        → get store i ≡ o
        → decide_found now i d actor o store ≡ (ok r, store')
        → (q : ApprovalRequest) × (get store i ≡ some q)
          × (is_pending q.decision ≡ true)
          × (now < q.expires_at)
          × (r ≡ as_decided now d actor q)
          × (get store' i ≡ some r)
    go none e g = ground arith
    go (some q) e g = (
      q,
      e,
      ground arith,
      ground arith,
      ground arith,
      ground (arith, get-set store i i (as_decided now d actor q), str_eq_refl i),
    )

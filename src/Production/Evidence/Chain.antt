-- ===== src/Production/Evidence/Chain.antt =====
-- The hash chain of an evidence ledger (production/control_plane.py).
use mathlib.Core.List.{reverse, reverse_aux, reverse-reverse}
use native.Mathlib.Decide.{ℕ_discrete}
use niceone_obsidian.Prelude.{
  String, ◌≡◌, ◌≢◌, ◌⊎◌, refl, sym, ap, ◌∙◌, inl, inr, true, Option, none, some, List, [], ◌∷◌, map,
  arith, str_eq, str_eq_iff, Bool-cases,
}
use niceone_obsidian.Prelude.Values.{Value}
use niceone_obsidian.Production.Evidence.{
  EvidenceEvent, EvidenceLedger, Content, Hashing, content, digest, last_hash, hash_eq, verify_from,
  verify_chain,
}

String-discrete : Discrete String
String-discrete a b = elim (Bool-cases (str_eq a b)) [
  | inl e ↦ yes ((str_eq_iff a b).0 e)
  | inr n ↦ no (λ e. ground (arith, n, str_eq_iff a b))
]

Value-discrete : Discrete Value
Value-discrete = hlevel (ℕ_discrete, String-discrete)

Content-discrete : Discrete Content
Content-discrete = hlevel (ℕ_discrete, String-discrete, Value-discrete)

-- An event without its timestamp.
abbrev pub untimed : EvidenceEvent → EvidenceEvent
untimed e = record e { timestamp = 0 }

map-reverse_aux :
    (xs ys : List EvidenceEvent)
    → map untimed (reverse_aux xs ys) ≡ reverse_aux (map untimed xs) (map untimed ys)
map-reverse_aux [] ys = refl
map-reverse_aux (x ∷ xs) ys = map-reverse_aux xs (x ∷ ys)

map-of_reverse :
    (xs ys : List EvidenceEvent)
    → map untimed (reverse xs) ≡ map untimed (reverse ys)
    → map untimed xs ≡ map untimed ys
map-of_reverse xs ys p =
    sym (reverse-reverse (map untimed xs))
    ∙ ap reverse (sym (map-reverse_aux xs []) ∙ p ∙ map-reverse_aux ys [])
    ∙ reverse-reverse (map untimed ys)

-- The hash of the newest event of a history, which begins with its newest event.
abbrev newest : List EvidenceEvent → Option String
newest [] = none
newest (e ∷ older) = some e.content_hash

hash_eq→eq : (a b : Option String) → hash_eq a b ≡ true → a ≡ b
hash_eq→eq none none h = refl
hash_eq→eq none (some b) h = ground (arith, h)
hash_eq→eq (some a) none h = ground (arith, h)
hash_eq→eq (some a) (some b) h = ap some ((str_eq_iff a b).0 h)

module _ (h : Hashing) where
  -- Two different contents with one digest.
  abbrev pub Collision : Type 0
  Collision = (c d : Content) × (c ≢ d) × (digest h c ≡ digest h d)

  -- Each event of a history names the hash of the one before it and has the digest of its content.
  abbrev Linked : List EvidenceEvent → Type 0
  Linked [] = Unit
  Linked (e ∷ older) =
      (e.previous_hash ≡ newest older)
      × (e.content_hash ≡ digest h (content e (newest older)))
      × Linked older

  verify-Linked :
      (es older : List EvidenceEvent)
      → Linked older
      → verify_from h (newest older) es ≡ true
      → Linked (reverse_aux es older)
        × (newest (reverse_aux es older) ≡ last_hash (newest older) es)
  unfolding verify_from last_hash
  verify-Linked [] older l v = (l, refl)
  verify-Linked (e ∷ es) older l v =
      verify-Linked es (e ∷ older)
        (
          hash_eq→eq e.previous_hash (newest older) (ground (arith, v)),
          ground (arith, v, str_eq_iff e.content_hash (digest h (content e (newest older)))),
          l,
        )
        (ground (arith, v))

  -- Histories with the same newest hash are the same but for the timestamps, or show a collision.
  same_history :
      (xs ys : List EvidenceEvent)
      → Linked xs
      → Linked ys
      → newest xs ≡ newest ys
      → (map untimed xs ≡ map untimed ys) ⊎ Collision
  same_history [] [] l m p = inl refl
  same_history [] (y ∷ ys) l m p = absurd (cc)
  same_history (x ∷ xs) [] l m p = absurd (cc)
  same_history (x ∷ xs) (y ∷ ys) (a, b, l) (c, d, m) p =
      elim (Content-discrete (content x (newest xs)) (content y (newest ys))) [
        | no n ↦ inr (content x (newest xs), content y (newest ys), n, ground (arith, p, b, d))
        | yes e ↦ elim (same_history xs ys l m (ap (λ (c : Content). c.previous) e)) [
          | inr k ↦ inr k
          | inl q ↦ inl (ground (arith, p, e, a, c, q))
        ]
      ]

  -- Two ledgers that `verify_chain` accepts and whose last hashes are equal hold the same events, but
  -- for the timestamps, or two different contents with the same digest are known.
  pub tamper_evident :
      (l m : EvidenceLedger)
      → verify_chain h l ≡ true
      → verify_chain h m ≡ true
      → last_hash none l.events ≡ last_hash none m.events
      → (map untimed l.events ≡ map untimed m.events) ⊎ Collision
  unfolding verify_chain
  tamper_evident l m v w p =
      let (a, b) = verify-Linked l.events [] tt v in
      let (c, d) = verify-Linked m.events [] tt w in
      elim (same_history (reverse l.events) (reverse m.events) a c (b ∙ p ∙ sym d)) [
        | inl q ↦ inl (map-of_reverse l.events m.events q)
        | inr k ↦ inr k
      ]

-- ===== src/Production/Evidence/Growth.antt =====
-- Appending to an evidence ledger (production/control_plane.py).
use niceone_obsidian.Prelude.{
  ℕ, String, ◌≡◌, refl, sym, ap, ◌∙◌, inl, inr, true, false, ◌||◌, Option, none, some, List, [],
  ◌∷◌, ◌++◌, map, arith, Extends, Extends-refl, Extends-trans, str_eq, str_eq_iff, str_eq_refl,
  Bool-cases,
}
use niceone_obsidian.Prelude.Values.{Fields}
use niceone_obsidian.Kernel.Policy.{member}
use niceone_obsidian.Production.Evidence.{
  EvidenceEvent, EvidenceLedger, Hashing, last_hash, is_linked, hash_eq, new_event, append,
  with_event, verify_from, verify_chain,
}

abbrev Distinct : List String → Type 0
Distinct [] = Unit
Distinct (x ∷ xs) = (member x xs ≡ false) × Distinct xs

abbrev identifier : EvidenceEvent → String
identifier e = e.event_id

-- The chain verifies, and the identifiers of the events are distinct and are the ones that are known.
pub record SoundLedger (h : Hashing) (l : EvidenceLedger) : Type 0 where
  pub chain : verify_chain h l ≡ true
  pub known : l.ids ≡ map identifier l.events
  pub distinct : Distinct l.ids

-- The arguments of a call of `append`, with the identifier that is drawn and the clock's reading.
pub record Append : Type 0 where
  pub event_id : String
  pub now : ℕ
  pub execution_id : String
  pub event_type : String
  pub payload : Fields

pub member_snoc :
    (x y : String) (xs : List String) → member x (xs ++ y ∷ []) ≡ (member x xs || str_eq x y)
member_snoc x y [] = ground arith
member_snoc x y (z ∷ xs) = ground (arith, member_snoc x y xs)

Distinct-snoc :
    (xs : List String) (i : String) → Distinct xs → member i xs ≡ false → Distinct (xs ++ i ∷ [])
Distinct-snoc [] i d m = (refl, tt)
Distinct-snoc (x ∷ xs) i (n, d) m = (
  ground (arith, n, m, member_snoc x i xs, str_eq_iff x i, str_eq_iff i x),
  Distinct-snoc xs i d (ground (arith, m)),
)

map_snoc :
    (es : List EvidenceEvent) (e : EvidenceEvent)
    → map identifier (es ++ e ∷ []) ≡ map identifier es ++ e.event_id ∷ []
map_snoc [] e = refl
map_snoc (d ∷ es) e = ap (λ l. d.event_id ∷ l) (map_snoc es e)

hash_eq_refl : (a : Option String) → hash_eq a a ≡ true
hash_eq_refl none = refl
hash_eq_refl (some a) = str_eq_refl a

module _ (h : Hashing) where
  verify_snoc :
      (p : Option String) (es : List EvidenceEvent) (e : EvidenceEvent)
      → verify_from h p es ≡ true
      → is_linked h (last_hash p es) e ≡ true
      → verify_from h p (es ++ e ∷ []) ≡ true
  unfolding verify_from last_hash
  verify_snoc p [] e v k = ground (arith, k)
  verify_snoc p (d ∷ es) e v k = ground (arith, v, verify_snoc (some d.content_hash) es e)

  with_event-SoundLedger :
      (i : String) (now : ℕ) (x t : String) (d : Fields) (l : EvidenceLedger)
      → SoundLedger h l
      → member i l.ids ≡ false
      → SoundLedger h (with_event h (new_event h i now x t d (last_hash none l.events)) l)
  unfolding verify_chain verify_from
  with_event-SoundLedger i now x t d l s n =
      let e : EvidenceEvent = new_event h i now x t d (last_hash none l.events) in
      record {
        chain =
            verify_snoc none l.events e s.chain
              (ground (arith, hash_eq_refl (last_hash none l.events), str_eq_refl e.content_hash));
        known = ap (λ is. is ++ i ∷ []) s.known ∙ sym (map_snoc l.events e);
        distinct = Distinct-snoc l.ids i s.distinct n;
      }

  pub append-SoundLedger :
      (i : String) (now : ℕ) (x t : String) (d : Fields) (l : EvidenceLedger)
      → SoundLedger h l
      → SoundLedger h (append h i now x t d l).1
  unfolding append
  append-SoundLedger i now x t d l s = elim (Bool-cases (member i l.ids)) [
    | inl used ↦ rw used s
    | inr free ↦ rw free (with_event-SoundLedger i now x t d l s free)
  ]

  pub append-Extends :
      (i : String) (now : ℕ) (x t : String) (d : Fields) (l : EvidenceLedger)
      → Extends l.events (append h i now x t d l).1.events
  unfolding append
  append-Extends i now x t d l = elim (Bool-cases (member i l.ids)) [
    | inl used ↦ rw used (Extends-refl l.events)
    | inr free ↦ rw free (new_event h i now x t d (last_hash none l.events) ∷ [], refl)
  ]

  unfoldable pub append_all : List Append → EvidenceLedger → EvidenceLedger
  append_all [] l = l
  append_all (a ∷ more) l =
      append_all more (append h a.event_id a.now a.execution_id a.event_type a.payload l).1

  -- Whatever is appended to a sound ledger, also under identifiers that are used already, its chain
  -- verifies, its identifiers stay distinct, and its events stay as they were, in front of the new ones.
  pub append_all-SoundLedger :
      (calls : List Append) (l : EvidenceLedger)
      → SoundLedger h l
      → SoundLedger h (append_all calls l) × Extends l.events (append_all calls l).events
  unfolding append_all
  append_all-SoundLedger [] l s = (s, Extends-refl l.events)
  append_all-SoundLedger (a ∷ more) l s =
      let l' : EvidenceLedger =
        (append h a.event_id a.now a.execution_id a.event_type a.payload l).1 in
      let (t, x) =
        append_all-SoundLedger more l'
          (append-SoundLedger a.event_id a.now a.execution_id a.event_type a.payload l s) in
      (
        t,
        Extends-trans l.events l'.events (append_all more l').events
            (append-Extends a.event_id a.now a.execution_id a.event_type a.payload l) x,
      )

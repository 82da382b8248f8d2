-- ===== src/Collator/Briefing/Fired.antt =====
-- The intentions that a briefing fires, and the order in which it shows the fired ones.
use mathlib.Core.List.{Perm}
use mathlib.Core.List.Perm
use mathlib.Core.Path.{subst}
use mcp_awareness.Base.{
  Option, ℕ, zero, suc, ◌≤◌, ◌≡◌, refl, inl, inr, true, false, String, List, [], ◌∷◌, none, some,
  arith, str_eq, eq_iff, if◌then◌else◌, any, Any, here, there, All, All-map, Bool, Bool-cases, ◌||◌,
  take, drop, take_of_length-le, length, map, ◌∙◌, Any→any, any→Any, ap,
}
use mcp_awareness.Collator.Briefing.Sources.{has_any}
use mcp_awareness.Collator.Briefing.Interface.{BriefingStore, BriefingStoreLaws, Intention, Lists}
use mcp_awareness.Collator.Briefing.Generate.{
  goes_before, insert_fired, sort_fired, show_fired, fire_all, fired_store, generate_briefing,
  assemble, deliver, max_fired_in_briefing,
}

-- None of the list has a lesser key.
abbrev pub NoneBefore : Intention → List Intention → Type 0
NoneBefore i = All (λ j. goes_before j i ≡ false)

abbrev pub InOrder : List Intention → Type 0
InOrder [] = Unit {0}
InOrder (i ∷ is') = NoneBefore i is' × InOrder is'

not_before_trans :
    (i j k : Intention)
    → goes_before j i ≡ false
    → goes_before k j ≡ false
    → goes_before k i ≡ false
unfolding goes_before
not_before_trans i j k p q = ground arith

before_asymm : (i j : Intention) → goes_before j i ≡ true → goes_before i j ≡ false
unfolding goes_before
before_asymm i j p = ground arith

insert_fired-NoneBefore :
    (x i : Intention) (is' : List Intention)
    → goes_before i x ≡ false
    → NoneBefore x is'
    → NoneBefore x (insert_fired i is')
unfolding insert_fired
insert_fired-NoneBefore x i [] h v = (h, tt)
insert_fired-NoneBefore x i (j ∷ js) h v = elim (Bool-cases (goes_before j i)) [
  | inl b ↦ rw b (v.0, insert_fired-NoneBefore x i js h v.1)
  | inr n ↦ rw n (h, v)
]

insert_fired-InOrder :
    (i : Intention) (is' : List Intention) → InOrder is' → InOrder (insert_fired i is')
unfolding insert_fired
insert_fired-InOrder i [] v = (tt, tt)
insert_fired-InOrder i (j ∷ js) v = elim (Bool-cases (goes_before j i)) [
  | inl b ↦
      rw b (insert_fired-NoneBefore j i js (before_asymm i j b) v.0, insert_fired-InOrder i js v.1)
  | inr n ↦ rw n ((n, All-map js (λ k q. not_before_trans i j k n q) v.0), v)
]

sort_fired-InOrder : (is' : List Intention) → InOrder (sort_fired is')
unfolding sort_fired
sort_fired-InOrder [] = tt
sort_fired-InOrder (i ∷ is') = insert_fired-InOrder i (sort_fired is') (sort_fired-InOrder is')

insert_fired-perm : (i : Intention) (is' : List Intention) → Perm (insert_fired i is') (i ∷ is')
unfolding insert_fired
insert_fired-perm i [] = Perm.refl (i ∷ [])
insert_fired-perm i (j ∷ js) = elim (Bool-cases (goes_before j i)) [
  | inl b ↦ rw b (Perm.trans (Perm.cons j (insert_fired-perm i js)) (Perm.swap i j js))
  | inr n ↦ rw n (Perm.refl (i ∷ j ∷ js))
]

sort_fired-perm : (is' : List Intention) → Perm (sort_fired is') is'
unfolding sort_fired
sort_fired-perm [] = Perm.refl []
sort_fired-perm (i ∷ is') =
    Perm.trans (insert_fired-perm i (sort_fired is')) (Perm.cons i (sort_fired-perm is'))

All-drop : (P : Intention → Type 0) (n : ℕ) (xs : List Intention) → All P xs → All P (drop n xs)
All-drop P zero xs v = v
All-drop P (suc n) [] v = tt
All-drop P (suc n) (x ∷ xs) v = All-drop P n xs v.1

InOrder-cut :
    (n : ℕ) (xs : List Intention) → InOrder xs → All (λ i. NoneBefore i (drop n xs)) (take n xs)
InOrder-cut zero xs v = tt
InOrder-cut (suc n) [] v = tt
InOrder-cut (suc n) (x ∷ xs) v = (All-drop _ n xs v.0, InOrder-cut n xs v.1)

-- The sort keeps the fired intentions, and wherever the list is cut none behind the cut is more
-- urgent, or as urgent and changed later, than one before it.
pub sort_fired_cut :
    (fired : List Intention) (n : ℕ)
    → Perm (sort_fired fired) fired
      × All (λ i. NoneBefore i (drop n (sort_fired fired))) (take n (sort_fired fired))
sort_fired_cut fired n =
    (sort_fired-perm fired, InOrder-cut n (sort_fired fired) (sort_fired-InOrder fired))

second :
    {P : Intention → Type 0} {i j : Intention} {js ks : List Intention}
    → Any P (i ∷ j ∷ js)
    → (Any P (i ∷ js) → Any P ks)
    → Any P (j ∷ ks)
second (here h) rec = there (rec (here h))
second (there (here h)) rec = here h
second (there (there a)) rec = there (rec (there a))

insert_fired-Any :
    {P : Intention → Type 0} (i : Intention) (is' : List Intention)
    → Any P (i ∷ is')
    → Any P (insert_fired i is')
unfolding insert_fired
insert_fired-Any i [] a = a
insert_fired-Any i (j ∷ js) a = elim (Bool-cases (goes_before j i)) [
  | inl b ↦ rw b (second a (insert_fired-Any i js))
  | inr n ↦ rw n a
]

sort_fired-Any :
    {P : Intention → Type 0} {is' : List Intention} → Any P is' → Any P (sort_fired is')
unfolding sort_fired
sort_fired-Any (here {x = i} {xs = is'} h) = insert_fired-Any i (sort_fired is') (here h)
sort_fired-Any (there {x = i} {xs = is'} a) =
    insert_fired-Any i (sort_fired is') (there (sort_fired-Any a))

-- whether the list names the identifier
abbrev pub lists : List Intention → String → Bool
lists es j = any (λ e. str_eq e.id j) es

not_listed : (es : List Intention) (j : String) → ¬ Lists es j → lists es j ≡ false
not_listed es j n = elim (Bool-cases (lists es j)) [
  | inl e ↦ absurd (n (any→Any (λ x. str_eq x.id j) es (λ x p. (eq_iff x.id j).0 p) e))
  | inr e ↦ e
]

length-insert_fired :
    (i : Intention) (is' : List Intention) → length (insert_fired i is') ≡ suc (length is')
unfolding insert_fired
length-insert_fired i [] = refl
length-insert_fired i (j ∷ js) = ground (arith, length-insert_fired i js)

length-sort_fired : (is' : List Intention) → length (sort_fired is') ≡ length is'
unfolding sort_fired
length-sort_fired [] = refl
length-sort_fired (i ∷ is') =
    length-insert_fired i (sort_fired is') ∙ ap suc (length-sort_fired is')

or_listed : (b : Bool) {j : String} {es : List Intention} → Lists es j → b || has_any es ≡ true
or_listed b (here e) = ground arith
or_listed b (there a) = ground arith

shown-Any :
    (j : String) {es : List Intention} → Lists es j → Any (λ f. f.id ≡ j) (map show_fired es)
unfolding show_fired
shown-Any j (here e) = here e
shown-Any j (there a) = there (shown-Any j a)

module _ {S : Type 0} (store : BriefingStore S) (state_of : S → String → String → Option String)
    (laws : BriefingStoreLaws store state_of) where
  open laws use {state_of-update, get_intentions_iff, due_pending}

  fire_all-state_of :
      (now : ℕ) (owner : String) (due : List Intention) (s : S) (j : String)
      → state_of (fire_all store now owner due s) owner j ≡ (
          if lists due j
          then (elim (state_of s owner j) [ none ↦ none | some _ ↦ some "fired" ])
          else state_of s owner j)
  unfolding fire_all
  fire_all-state_of now owner [] s j = refl
  fire_all-state_of now owner (i ∷ due) s j = fire_all-state_of now owner due _ j ∙ step
    where
      step :
          (if lists due j
            then (elim (state_of
                (store.update_intention_state now s owner i.id "fired"
                  (some "Delivered via briefing"))
                owner
                j) [ none ↦ none | some _ ↦ some "fired" ])
            else state_of
                (store.update_intention_state now s owner i.id "fired"
                  (some "Delivered via briefing"))
                owner
                j)
          ≡ (if str_eq i.id j || lists due j
              then (elim (state_of s owner j) [ none ↦ none | some _ ↦ some "fired" ])
              else state_of s owner j)
      step = rw (state_of-update) (ground arith)

  due_state :
      (s : S) (owner j : String) (due : List Intention)
      → All (λ e. state_of s owner e.id ≡ some "pending") due
      → Lists due j
      → state_of s owner j ≡ some "pending"
  due_state s owner j due v (here e) = subst (λ k. state_of s owner k ≡ some "pending") e v.0
  due_state s owner j due v (there a) = due_state s owner j _ v.1 a

  -- A briefing moves exactly the due intentions to the fired state: of the owner's intentions
  -- those that were due are fired after it, and every other keeps its state.
  pub briefing_fires :
      (now : ℕ) (s : S) (owner j : String)
      → (Lists (store.get_fired_intentions now s owner) j
          → state_of (generate_briefing store now s owner).0 owner j ≡ some "fired")
        × (¬ Lists (store.get_fired_intentions now s owner) j
            → state_of (generate_briefing store now s owner).0 owner j ≡ state_of s owner j)
  unfolding generate_briefing fired_store
  briefing_fires now s owner j = (
    λ a.
        fire_all-state_of now owner (store.get_fired_intentions now s owner) s j
        ∙ (rw (
          Any→any (λ e. str_eq e.id j) (λ e p. (eq_iff e.id j).1 p) a,
          due_state s owner j _ (due_pending now s owner) a,
        )),
    λ n.
        fire_all-state_of now owner (store.get_fired_intentions now s owner) s j
        ∙ (rw (not_listed (store.get_fired_intentions now s owner) j n)),
  )

  -- While at most ten intentions of the owner are fired, the briefing that fires an intention
  -- shows it, and asks for attention.
  pub briefing_shows :
      (now : ℕ) (s : S) (owner j : String)
      → Lists (store.get_fired_intentions now s owner) j
      → length (store.get_intentions (generate_briefing store now s owner).0 owner "fired")
        ≤ max_fired_in_briefing
      → Any (λ f. f.id ≡ j) (generate_briefing store now s owner).1.briefing.fired_intentions
        × ((generate_briefing store now s owner).1.briefing.attention_needed ≡ true)
  unfolding generate_briefing assemble deliver
  briefing_shows now s owner j a few = (rw all_shown (shown-Any j listed), loud)
    where
      after : S
      after = fired_store store now s owner

      fired : List Intention
      fired = sort_fired (store.get_intentions after owner "fired")

      listed : Lists fired j
      listed =
          sort_fired-Any
            ((get_intentions_iff after owner "fired" j refl).1 ((briefing_fires now s owner j).0 a))

      all_shown : take max_fired_in_briefing fired ≡ fired
      all_shown =
          take_of_length-le max_fired_in_briefing fired
            (omega (arith, few, length-sort_fired (store.get_intentions after owner "fired")))

      loud : (generate_briefing store now s owner).1.briefing.attention_needed ≡ true
      loud = or_listed _ listed

-- ===== src/Core/Architecture/Validity/Names.antt =====
-- `validated_names` of architecture.rs accepts exactly the lists of distinct names that are not
-- blank, and returns the set of them.
use ovecc.Prelude.{
  ◌≡◌, ◌≢◌, ◌↔◌, ◌⊎◌, refl, false, List, [], ◌∷◌, Elem, All, Distinct, arith, ok, ◌>>◌, >>_iff,
  refuse_if, refuse_if_iff, set_insert, Elem-set_insert, contains, contains_iff, nat_eq, list_eq,
  nat_ord, list_ord,
}
use ovecc.Text.{Text, trim, empty}
use ovecc.Core.Architecture.{ComponentSpec}
use ovecc.Core.Architecture.Validate.{names_from, empty_name, declared_twice}
use ovecc.Core.Architecture.Validity.{names_of}

empty_iff : (t : Text) → (empty t ≡ false) ↔ (t ≢ [])
empty_iff [] = ground arith
empty_iff (c ∷ t) = ground arith

contains_not : (a : Text) (xs : List Text) → (contains a xs ≡ false) ↔ (¬ Elem a xs)
contains_not a xs = ground (arith, contains_iff a xs)

module _ {F : Type 0} where
  -- What the loop over the components still has to find.
  pub record IsFresh (seen : List Text) (cs : List (ComponentSpec F)) : Type 0 where
    pub named : All (λ c. trim c.name ≢ []) cs
    pub distinct : Distinct (names_of cs)
    pub unseen : All (λ c. ¬ Elem c.name seen) cs

  -- The conditions on the first component, and on the others after it.
  abbrev First : List Text → ComponentSpec F → Type 0
  First seen c = (trim c.name ≢ []) × (¬ Elem c.name seen)

  step :
      (seen names : List Text) (c : ComponentSpec F) (cs : List (ComponentSpec F))
      → (names_from seen (c ∷ cs) ≡ ok names)
        ↔ (First seen c × (names_from (set_insert c.name seen) cs ≡ ok names))
  unfolding names_from
  step seen names c cs =
      let blank = refuse_if (empty (trim c.name)) empty_name in
      let twice = refuse_if (contains c.name seen) (declared_twice c.name) in
      let rest = names_from (set_insert c.name seen) cs in
      let outer = >>_iff (blank >> twice) rest names in
      let inner = >>_iff blank twice tt in
      (
        λ h.
            let (checks, k) = outer.0 h in
            let (a, b) = inner.0 checks in
            (
              (
                (empty_iff (trim c.name)).0 ((refuse_if_iff (empty (trim c.name)) empty_name).0 a),
                (contains_not c.name seen).0
                    ((refuse_if_iff (contains c.name seen) (declared_twice c.name)).0 b),
              ),
              k,
            ),
        λ h. outer.1 (
          inner.1 (
            (refuse_if_iff (empty (trim c.name)) empty_name).1 ((empty_iff (trim c.name)).1 h.0.0),
            (refuse_if_iff (contains c.name seen) (declared_twice c.name)).1
                ((contains_not c.name seen).1 h.0.1),
          ),
          h.1,
        ),
      )

  unseen-set_insert :
      (a : Text) (seen : List Text) (cs : List (ComponentSpec F))
      → All (λ c. ¬ Elem c.name (set_insert a seen)) cs
        ↔ (All (λ c. ¬ Elem c.name seen) cs × (¬ Elem a (names_of cs)))
  unseen-set_insert a seen [] = ground arith
  unseen-set_insert a seen (c ∷ cs) =
      ground (arith, Elem-set_insert a c.name seen, unseen-set_insert a seen cs)

  IsFresh-step :
      (seen : List Text) (c : ComponentSpec F) (cs : List (ComponentSpec F))
      → IsFresh seen (c ∷ cs) ↔ (First seen c × IsFresh (set_insert c.name seen) cs)
  IsFresh-step seen c cs = ground (arith, unseen-set_insert c.name seen cs)

  pub names_from_sound :
      (seen names : List Text) (cs : List (ComponentSpec F))
      → names_from seen cs ≡ ok names
      → IsFresh seen cs × ((t : Text) → Elem t names ↔ (Elem t seen ⊎ Elem t (names_of cs)))
  unfolding names_from
  names_from_sound seen names [] h =
      (record { named = tt; distinct = tt; unseen = tt }, λ t. ground arith)
  names_from_sound seen names (c ∷ cs) h =
      let (first, k) = (step seen names c cs).0 h in
      let (fresh, members) = names_from_sound (set_insert c.name seen) names cs k in
      (
        (IsFresh-step seen c cs).1 (first, fresh),
        λ t. ground (arith, members t, Elem-set_insert c.name t seen),
      )

  pub names_from_complete :
      (seen : List Text) (cs : List (ComponentSpec F))
      → IsFresh seen cs
      → (names : List Text) × (names_from seen cs ≡ ok names)
  unfolding names_from
  names_from_complete seen [] h = (seen, refl)
  names_from_complete seen (c ∷ cs) h =
      let (first, fresh) = (IsFresh-step seen c cs).0 h in
      let (names, k) = names_from_complete (set_insert c.name seen) cs fresh in
      (names, (step seen names c cs).1 (first, k))

-- ===== src/Validation/Chain/Laws.antt =====
-- What the searches in an option chain return.
use native.Mathlib.Nat.{le_refl}
use mathlib.Core.Path.{subst}
use trade_receiver.Prelude.{
  ◌==◌, ℕ, ◌≤◌, String, true, false, some, List, [], ◌∷◌, ◌≡◌, inl, inr, arith, eqb_iff, ltb,
  filter, In, In-filter, find-In, find_sound, Bool-cases, refl,
}
use trade_receiver.Prelude.Int.{Decimal, eqb_ℤ_iff, distance}
use trade_receiver.Prelude.Text.{upper}
use trade_receiver.Trade.{Date, OptionType, call, put, OptionContract}
use trade_receiver.Validation.Chain.{
  same_type, allowed, is_exact, match_exact_contract, of_type, of_expiration, is_spxw, or_list,
  candidates, nearest, nearer, nearest_of, closest_contract,
}

pub same_type→≡ : (a b : OptionType) → same_type a b ≡ true → a ≡ b
same_type→≡ call call h = refl
same_type→≡ put put h = refl
same_type→≡ call put h = cc
same_type→≡ put call h = cc

-- A contract of the chain that an order for the underlying and the type may stand for.
pub record IsEligible (contracts : List OptionContract) (underlying : String)
    (option_type : OptionType) (c : OptionContract) : Type 0 where
  pub listed : In c contracts
  pub underlying_allowed : allowed underlying c ≡ true
  pub type_matches : c.option_type ≡ option_type

is_exact_parts :
    (underlying : String) (option_type : OptionType) (strike : Decimal) (expiration : Date)
    (c : OptionContract)
    → is_exact underlying option_type strike expiration c ≡ true
    → (allowed underlying c ≡ true)
      × (c.option_type ≡ option_type)
      × (c.strike ≡ strike)
      × (c.expiration ≡ expiration)
unfolding is_exact
is_exact_parts underlying option_type strike expiration c h = ground (
  arith,
  same_type→≡ c.option_type option_type,
  eqb_ℤ_iff c.strike strike,
  eqb_iff c.expiration expiration,
)

of_type_parts :
    (underlying : String) (option_type : OptionType) (c : OptionContract)
    → of_type underlying option_type c ≡ true
    → (allowed underlying c ≡ true) × (c.option_type ≡ option_type)
of_type_parts underlying option_type c h = ground (arith, same_type→≡ c.option_type option_type)

of_expiration_parts :
    (underlying : String) (option_type : OptionType) (expiration : Date) (c : OptionContract)
    → of_expiration underlying option_type expiration c ≡ true
    → (allowed underlying c ≡ true) × (c.option_type ≡ option_type)
of_expiration_parts underlying option_type expiration c h =
    ground (arith, same_type→≡ c.option_type option_type)

le_of_closer : (a b n : ℕ) → ltb a b ≡ true → n ≤ a → n ≤ b
le_of_closer a b n h k = ground arith

le_of_not_closer : (a b n : ℕ) → ltb a b ≡ false → n ≤ b → n ≤ a
le_of_not_closer a b n h k = ground arith

-- An item of the list that no other is nearer than.
pub record IsNearest (target : Decimal) (cs : List OptionContract) (x : OptionContract)
    : Type 0 where
  pub member : In x cs
  pub least : (c : OptionContract) → In c cs → distance x.strike target ≤ distance c.strike target

nearer-IsNearest :
    (target : Decimal) (best d x : OptionContract) (cs : List OptionContract)
    → IsNearest target (nearer target best d ∷ cs) x
    → IsNearest target (best ∷ d ∷ cs) x
nearer-IsNearest target best d x cs h =
    elim (Bool-cases (ltb (distance d.strike target) (distance best.strike target))) [
      | inl e ↦
          let k : IsNearest target (d ∷ cs) x = rw e at h in
          record {
            member = inr k.member;
            least = λ c i. elim i [
              | inl same ↦ rw same (le_of_closer _ _ _ e (k.least d (inl refl)))
              | inr later ↦ k.least c later
            ];
          }
      | inr e ↦
          let k : IsNearest target (best ∷ cs) x = rw e at h in
          record {
            member = elim k.member [ inl same ↦ inl same | inr later ↦ inr (inr later) ];
            least = λ c i. elim i [
              | inl same ↦ k.least c (inl same)
              | inr (inl same) ↦ rw same (le_of_not_closer _ _ _ e (k.least best (inl refl)))
              | inr (inr later) ↦ k.least c (inr later)
            ];
          }
    ]

nearest-IsNearest :
    (target : Decimal) (best : OptionContract) (cs : List OptionContract)
    → IsNearest target (best ∷ cs) (nearest target best cs)
unfolding nearest
nearest-IsNearest target best [] = record {
  member = inl refl;
  least = λ c i. elim i [ inl e ↦ rw e (le_refl _) | inr none_left ↦ absurd none_left ];
}
nearest-IsNearest target best (d ∷ cs) =
    nearer-IsNearest target best d _ cs (nearest-IsNearest target (nearer target best d) cs)

nearest_of-IsNearest :
    (target : Decimal) (cs : List OptionContract) (c : OptionContract)
    → nearest_of target cs ≡ some c
    → IsNearest target cs c
nearest_of-IsNearest target [] c h = cc
nearest_of-IsNearest target (d ∷ cs) c h =
    let e : nearest target d cs ≡ c = cc in
    subst (IsNearest target (d ∷ cs)) e (nearest-IsNearest target d cs)

module _ (contracts : List OptionContract) (underlying : String) (option_type : OptionType) where
  pub match_exact_contract_sound :
      (strike : Decimal) (expiration : Date) (c : OptionContract)
      → match_exact_contract contracts underlying option_type strike expiration ≡ some c
      → IsEligible contracts underlying option_type c
        × (c.strike ≡ strike)
        × (c.expiration ≡ expiration)
  unfolding match_exact_contract
  match_exact_contract_sound strike expiration c h =
      let e = find_sound (is_exact underlying option_type strike expiration) contracts c h in
      let (al, ty, st, ex) = is_exact_parts underlying option_type strike expiration c e in
      (
        record { listed = find-In _ contracts c h; underlying_allowed = al; type_matches = ty },
        st,
        ex,
      )

  or_list_all :
      (P : OptionContract → Type 0) (xs ys : List OptionContract)
      → ((c : OptionContract) → In c xs → P c)
      → ((c : OptionContract) → In c ys → P c)
      → (c : OptionContract) → In c (or_list xs ys)
      → P c
  or_list_all P [] ys hx hy c i = hy c i
  or_list_all P (x ∷ xs) ys hx hy c i = hx c i

  of_type-IsEligible :
      (c : OptionContract)
      → In c (filter (of_type underlying option_type) contracts)
      → IsEligible contracts underlying option_type c
  of_type-IsEligible c i =
      let (listed, t) = In-filter (of_type underlying option_type) contracts c i in
      let (al, ty) = of_type_parts underlying option_type c t in
      record { listed = listed; underlying_allowed = al; type_matches = ty }

  of_expiration-IsEligible :
      (expiration : Date) (c : OptionContract)
      → In c (filter (of_expiration underlying option_type expiration) contracts)
      → IsEligible contracts underlying option_type c
  of_expiration-IsEligible expiration c i =
      let (listed, t) = In-filter (of_expiration underlying option_type expiration) contracts c i in
      let (al, ty) = of_expiration_parts underlying option_type expiration c t in
      record { listed = listed; underlying_allowed = al; type_matches = ty }

  candidates-IsEligible :
      (expiration : Date) (c : OptionContract)
      → In c (candidates contracts underlying option_type expiration)
      → IsEligible contracts underlying option_type c
  unfolding candidates
  candidates-IsEligible expiration c i =
      let near =
        or_list (filter (of_expiration underlying option_type expiration) contracts)
          (filter (of_type underlying option_type) contracts) in
      let all_near : (d : OptionContract)
          → In d near
          → IsEligible contracts underlying option_type d =
        or_list_all (IsEligible contracts underlying option_type) _ _
          (of_expiration-IsEligible expiration) of_type-IsEligible in
      elim (Bool-cases (upper underlying == "SPX")) [
        | inl spx ↦
            or_list_all (IsEligible contracts underlying option_type) (filter is_spxw near) near
              (λ d j. all_near d (In-filter is_spxw near d j).0) all_near c (rw spx at i)
        | inr other ↦ all_near c (rw other at i)
      ]

  pub closest_contract_sound :
      (target : Decimal) (expiration : Date) (c : OptionContract)
      → closest_contract contracts underlying option_type target expiration ≡ some c
      → IsEligible contracts underlying option_type c
        × IsNearest target (candidates contracts underlying option_type expiration) c
  unfolding closest_contract
  closest_contract_sound target expiration c h =
      let n = nearest_of-IsNearest target _ c h in (candidates-IsEligible expiration c n.member, n)

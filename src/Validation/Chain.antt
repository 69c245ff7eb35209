-- ===== src/Validation/Chain.antt =====
-- The searches in an option chain: `_match_exact_contract` and `_closest_contract`.
pub mod Laws
use trade_receiver.Prelude.{
  ℕ, String, Bool, true, false, Option, none, some, List, [], ◌∷◌, ◌==◌, ◌&&◌, ◌||◌, if◌then◌else◌,
  eqb, ltb, filter, find,
}
use trade_receiver.Prelude.Int.{Decimal, eqb_ℤ, distance}
use trade_receiver.Prelude.Text.{upper, contains}
use trade_receiver.Trade.{Date, OptionType, call, put, OptionContract}

abbrev pub same_type : OptionType → OptionType → Bool
same_type call call = true
same_type put put = true
same_type _ _ = false

-- `c.underlying.upper() in allowed`: SPX stands for SPXW too
unfoldable pub allowed : String → OptionContract → Bool
allowed underlying c =
    upper c.underlying == upper underlying
    || (upper underlying == "SPX" && upper c.underlying == "SPXW")

unfoldable pub is_exact : String → OptionType → Decimal → Date → OptionContract → Bool
is_exact underlying option_type strike expiration c =
    allowed underlying c
    && (same_type c.option_type option_type
        && (eqb_ℤ c.strike strike && eqb c.expiration expiration))

unfoldable pub match_exact_contract :
    List OptionContract → String → OptionType → Decimal → Date → Option OptionContract
match_exact_contract contracts underlying option_type strike expiration =
    find (is_exact underlying option_type strike expiration) contracts

abbrev pub of_type : String → OptionType → OptionContract → Bool
of_type underlying option_type c = allowed underlying c && same_type c.option_type option_type

abbrev pub of_expiration : String → OptionType → Date → OptionContract → Bool
of_expiration underlying option_type expiration c =
    allowed underlying c && (same_type c.option_type option_type && eqb c.expiration expiration)

abbrev pub is_spxw : OptionContract → Bool
is_spxw c = contains (upper c.symbol) "SPXW" || upper c.underlying == "SPXW"

-- `xs or ys`
abbrev pub or_list {ℓ} : {A : Type ℓ} → List A → List A → List A
or_list [] ys = ys
or_list (x ∷ xs) ys = x ∷ xs

unfoldable pub candidates : List OptionContract → String → OptionType → Date → List OptionContract
candidates contracts underlying option_type expiration =
    let near =
      or_list (filter (of_expiration underlying option_type expiration) contracts)
        (filter (of_type underlying option_type) contracts) in
    if upper underlying == "SPX" then or_list (filter is_spxw near) near else near

abbrev pub nearer : Decimal → OptionContract → OptionContract → OptionContract
nearer target best c =
    if ltb (distance c.strike target) (distance best.strike target) then c else best

-- `min(candidates, key=...)`: the first of the nearest
unfoldable pub nearest : Decimal → OptionContract → List OptionContract → OptionContract
nearest target best [] = best
nearest target best (c ∷ cs) = nearest target (nearer target best c) cs

abbrev pub nearest_of : Decimal → List OptionContract → Option OptionContract
nearest_of target [] = none
nearest_of target (c ∷ cs) = some (nearest target c cs)

unfoldable pub closest_contract :
    List OptionContract → String → OptionType → Decimal → Date → Option OptionContract
closest_contract contracts underlying option_type target_strike expiration =
    nearest_of target_strike (candidates contracts underlying option_type expiration)

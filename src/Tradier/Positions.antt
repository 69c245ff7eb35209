-- ===== src/Tradier/Positions.antt =====
-- Which positions the Tradier adapter finds in an answer.
use trade_receiver.Prelude.{
  String, ◌==◌, true, false, some, List, [], ◌∷◌, ◌≡◌, inl, inr, refl, sym, ap, ◌∙◌, suc, filter,
  length, Bool-cases,
}
use trade_receiver.Prelude.Int.{pos, eqb_ℤ}
use trade_receiver.Session.{Result, ok}
use trade_receiver.Broker.{Position}
use trade_receiver.Json.{
  Json, array, object, Fields, lookup, get_or, or_else, is_object, iterate, letters, null, bool,
  items_of, keys_of, field, number, string, nil, cons, end,
}
use trade_receiver.Http.{Call, Http, Net, ◌>>=◌, lift, pure}
use trade_receiver.Http.Laws.{bind_ok}
use trade_receiver.Session.Rules.{err_ok}
use trade_receiver.Tradier.Laws.{ok_same}
use trade_receiver.Tradier.{Form}
use trade_receiver.Tradier.Account.{read_position, read_positions, positions_of}

module _ (http : Http Form) where
  length-read_positions :
      (js : List Json) (calls : List (Call Form)) (ps : List Position)
      → (read_positions http js calls).0 ≡ ok ps
      → length ps ≡ length (filter is_object js)
  unfolding read_positions
  length-read_positions [] calls ps h = ap length (sym (ok_same [] ps h))
  length-read_positions (j ∷ js) calls ps h = elim (Bool-cases (is_object j)) [
    | inr e ↦ rw e (length-read_positions js calls ps (rw e at h))
    | inl e ↦
        let (p, _, after) =
          bind_ok (read_position http j) (λ q. read_positions http js >>= λ qs. pure (q ∷ qs)) calls
            ps (rw e at h) in
        let (qs, found, done) =
          bind_ok (read_positions http js) (λ qs. pure (p ∷ qs)) (read_position http j calls).1 ps
            after in
        rw (e, sym (ok_same (p ∷ qs) ps done)) (ap suc (length-read_positions js _ qs found))
  ]

  -- the keys of a dictionary are no dictionaries
  read_positions-keys_of :
      (fs : Fields) (calls : List (Call Form))
      → read_positions http (keys_of fs) calls ≡ (ok [], calls)
  unfolding read_positions
  read_positions-keys_of end calls = refl
  read_positions-keys_of (field k v fs) calls = read_positions-keys_of fs calls

  read_positions-letters :
      (t : String) (calls : List (Call Form))
      → read_positions http (letters t) calls ≡ (ok [], calls)
  unfolding read_positions
  read_positions-letters String.[] calls = refl
  read_positions-letters (String.◌∷◌ c t) calls = read_positions-letters t calls

  -- the entries of a list; other values have none
  abbrev pub entries : Json → List Json
  entries (array js) = items_of js
  entries _ = []

  abbrev read_inner : Json → Net Form (List Position)
  read_inner inner =
      lift (iterate (or_else inner (array nil))) >>= λ items. read_positions http items

  none_read :
      (p : Result (List Position) × List (Call Form)) (calls : List (Call Form))
      (ps : List Position)
      → p ≡ (ok [], calls)
      → p.0 ≡ ok ps
      → length ps ≡ 0
  none_read p calls ps e h = ap length (sym (ok_same [] ps (sym (ap (λ q. q.0) e) ∙ h)))

  length-read_inner :
      (inner : Json) (calls : List (Call Form)) (ps : List Position)
      → (read_inner inner calls).0 ≡ ok ps
      → length ps ≡ length (filter is_object (entries inner))
  unfolding iterate read_positions
  length-read_inner null calls ps h = none_read _ calls ps refl h
  length-read_inner (bool true) calls ps h = err_ok h
  length-read_inner (bool false) calls ps h = none_read _ calls ps refl h
  length-read_inner (number t v) calls ps h = elim (Bool-cases (eqb_ℤ v (pos 0))) [
    | inl e ↦ none_read (read_inner (number t v) calls) calls ps (rw e refl) h
    | inr e ↦ err_ok (rw e at h)
  ]
  length-read_inner (string t) calls ps h = elim (Bool-cases (t == "")) [
    | inl e ↦ none_read (read_inner (string t) calls) calls ps (rw e refl) h
    | inr e ↦
        none_read (read_inner (string t) calls) calls ps (rw e (read_positions-letters t calls)) h
  ]
  length-read_inner (array nil) calls ps h = length-read_positions [] calls ps h
  length-read_inner (array (cons j js)) calls ps h =
      length-read_positions (j ∷ items_of js) calls ps h
  length-read_inner (object end) calls ps h = none_read _ calls ps refl h
  length-read_inner (object (field k v fs)) calls ps h =
      none_read _ calls ps (read_positions-keys_of (field k v fs) calls) h

  -- Of an answer whose positions come as a list, every dictionary becomes a position. Of one that is
  -- no list nothing does: a single position that is not wrapped in a list is lost.
  pub length-positions_of :
      (body outer : Fields) (inner : Json) (calls : List (Call Form)) (ps : List Position)
      → lookup "positions" body ≡ some (object outer)
      → lookup "position" outer ≡ some inner
      → (positions_of http (some (object body)) calls).0 ≡ ok ps
      → length ps ≡ length (filter is_object (entries inner))
  unfolding positions_of get_or
  length-positions_of body outer inner calls ps e f answered =
      length-read_inner inner calls ps (rw (e, f) at answered)

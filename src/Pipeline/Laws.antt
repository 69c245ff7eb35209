-- ===== src/Pipeline/Laws.antt =====
-- What the ingest pipeline guarantees for an alert and for its repetition.
use mathlib.Core.Path.{subst}
use trade_receiver.Prelude.{
  ℕ, String, Bool, true, false, Option, none, some, List, [], ◌∷◌, ◌++◌, ◌≡◌, refl, sym, ap, ◌∙◌,
  ◌⊎◌, inl, inr, arith, any, find-any, any-find, find_sound, In, find-In, Bool-cases, eq_iff,
  eq_refl,
}
use trade_receiver.Tables.{User, InboundAlert}
use trade_receiver.Session.{
  Session, Result, ok, err, integrity_error, M, ◌>>◌, lift, same_key, clash, commit, rollback,
}
use trade_receiver.Session.Rules.{commit_fails, commit_works}
use trade_receiver.Session.Keeps.{Keeps}
use trade_receiver.Entitlements.{can_process_trades}
use trade_receiver.Pipeline.{
  World, Reply, duplicate, find_alert, new_alert, append_alert, add_alert, process_alert,
  process_new, process_unless, process_inbound_alert, duplicate_of, duplicate_response, recover,
  ingest_alert,
}
use trade_receiver.Pipeline.Known.{HasKey, IsKnown, HasKey-append}
use trade_receiver.Pipeline.Steps.{process_alert-Keeps}

same_key_sym :
    (a b : InboundAlert)
    → same_key a.user_id a.idempotency_key b ≡ true
    → same_key b.user_id b.idempotency_key a ≡ true
same_key_sym a b h = ground (
  arith,
  eq_iff b.user_id a.user_id,
  eq_iff b.idempotency_key a.idempotency_key,
  eq_iff a.user_id b.user_id,
  eq_iff a.idempotency_key b.idempotency_key,
)

any-append :
    (p : InboundAlert → Bool) (xs : List InboundAlert) (a : InboundAlert)
    → any p (xs ++ a ∷ []) ≡ true
    → (any p xs ≡ true) ⊎ (p a ≡ true)
any-append p [] a h = inr (ground arith)
any-append p (x ∷ xs) a h = ground (arith, any-append p xs a)

-- A new row that clashes has the key of a rival.
clash-append :
    (rivals xs : List InboundAlert) (a : InboundAlert)
    → clash rivals xs ≡ false
    → clash rivals (xs ++ a ∷ []) ≡ true
    → any (same_key a.user_id a.idempotency_key) rivals ≡ true
unfolding clash
clash-append [] xs a h k = cc
clash-append (r ∷ rivals) xs a h k = ground (
  arith,
  clash-append rivals xs a,
  any-append (same_key r.user_id r.idempotency_key) xs a,
  same_key_sym r a,
)

module _ (user_id key : String) where
  HasKey-append_left :
      (xs ys : List InboundAlert) → HasKey user_id key xs → HasKey user_id key (xs ++ ys)
  HasKey-append_left [] ys h = cc
  HasKey-append_left (x ∷ xs) ys h = ground (arith, HasKey-append_left xs ys)

  IsSaved : Session → Type 0
  IsSaved s = HasKey user_id key s.saved.alerts

-- A commit of a session with the key, whose clash is one with the key, leaves the key saved, and so
-- does what follows it.
module _ (user_id key : String) {A : Type 0} (s : Session) (m : M A) where
  after_commit :
      Keeps (IsKnown user_id key) m
      → HasKey user_id key s.db.alerts
      → (clash s.rivals s.db.alerts ≡ true → HasKey user_id key s.rivals)
      → IsKnown user_id key ((commit >> m) s).1
  after_commit k h rival = elim (Bool-cases (clash s.rivals s.db.alerts)) [
    | inl b ↦
        subst (λ p. IsKnown user_id key ((lift p.0 >> m) p.1).1) (sym (commit_fails s b))
          (h, HasKey-append_left user_id key s.rivals s.saved.alerts (rival b))
    | inr b ↦
        let known : HasKey user_id key (s.rivals ++ s.db.alerts) =
          HasKey-append user_id key s.rivals s.db.alerts h in
        subst (λ p. IsKnown user_id key ((lift p.0 >> m) p.1).1) (sym (commit_works s b))
          (k.keeps _ (known, known))
  ]

new_alert-same_key :
    (user : User) (webhook_id : Option String) (key t : String) (active : Bool) (id : ℕ)
    → same_key user.id key (new_alert user webhook_id key t active id) ≡ true
new_alert-same_key user webhook_id key t active id = ground (arith, eq_refl user.id, eq_refl key)

-- A request starts from what is committed, and other workers only add alerts with new keys.
pub record IsFresh (s : Session) : Type 0 where
  pub nothing_pending : s.db ≡ s.saved
  pub rivals_are_new : clash s.rivals s.saved.alerts ≡ false

module _ {Body : Type 0} (world : World Body) (user : User) (body : Body)
    (webhook_id : Option String) where
  abbrev pub key_of : String
  key_of = world.resolve_idempotency_key user body webhook_id

  process_new-IsKnown :
      (t : String) (s : Session)
      → IsFresh s
      → IsKnown user.id key_of (process_new world user body webhook_id t s).1
  unfolding process_new add_alert
  process_new-IsKnown t s f =
      let alert =
        new_alert user webhook_id key_of t (can_process_trades world.now user) s.db.next_id in
      let mine : same_key user.id key_of alert ≡ true =
        new_alert-same_key user webhook_id key_of t (can_process_trades world.now user)
          s.db.next_id in
      after_commit user.id key_of (record s { db = append_alert alert s.db })
        (process_alert world user body t s.db.next_id)
        (process_alert-Keeps user.id key_of world user body t s.db.next_id)
        (HasKey-append user.id key_of s.db.alerts (alert ∷ []) (rw mine refl))
        (λ b. clash-append s.rivals s.db.alerts alert (rw f.nothing_pending f.rivals_are_new) b)

  process_unless-IsKnown :
      (t : String) (s : Session) (o : Option InboundAlert)
      → IsFresh s
      → find_alert user.id key_of s.db ≡ o
      → IsKnown user.id key_of (process_unless world user body webhook_id t o s).1
  unfolding process_unless
  process_unless-IsKnown t s none f e = process_new-IsKnown t s f
  process_unless-IsKnown t s (some a) f e =
      let known = any-find (same_key user.id key_of) s.db.alerts a e in
      (known, subst (λ d. HasKey user.id key_of d.alerts) f.nothing_pending known)

  pub process_inbound_alert-IsKnown :
      (t : String) (s : Session)
      → IsFresh s
      → world.normalized_text body ≡ ok t
      → IsKnown user.id key_of (process_inbound_alert world user body webhook_id s).1
  unfolding process_inbound_alert
  process_inbound_alert-IsKnown t s f n =
      rw n (process_unless-IsKnown t s (find_alert user.id key_of s.db) f refl)

  pub duplicate_of-unchanged :
      (o : Option InboundAlert) (s : Session) → (duplicate_of world user o s).1 ≡ s
  duplicate_of-unchanged none s = refl
  duplicate_of-unchanged (some a) s = refl

  recover-session :
      (p : Result Reply × Session)
      → (recover world user body webhook_id p).1 ≡ record p.1 { db = p.1.saved }
  unfolding recover rollback duplicate_response
  recover-session (ok r, s) = refl
  recover-session (err integrity_error, s) =
      duplicate_of-unchanged (find_alert user.id key_of s.saved) (record s { db = s.saved })
  recover-session (err _, s) = refl

  -- a known key is answered at once
  pub process_known :
      (t : String) (s : Session)
      → world.normalized_text body ≡ ok t
      → HasKey user.id key_of s.db.alerts
      → (id : ℕ) × (process_inbound_alert world user body webhook_id s ≡ (ok (duplicate id), s))
  unfolding process_inbound_alert process_unless
  process_known t s n h =
      let (a, e) = find-any (same_key user.id key_of) s.db.alerts h in (a.id, rw (n, e) refl)

  recovered :
      (r : Reply) (s : Session)
      → recover world user body webhook_id (ok r, s) ≡ (ok r, record s { db = s.saved })
  unfolding recover
  recovered r s = refl

  -- the answer names the alert that the query finds
  pub duplicate_row :
      (s : Session)
      → HasKey user.id key_of s.saved.alerts
      → (a : InboundAlert) × (find_alert user.id key_of s.saved ≡ some a)
        × ((recover world user body webhook_id (err integrity_error, s)).0 ≡ ok (duplicate a.id))
  unfolding recover rollback duplicate_response
  duplicate_row s h =
      let (a, e) = find-any (same_key user.id key_of) s.saved.alerts h in (a, e, rw e refl)

same_key-fields :
    (user_id key : String) (a : InboundAlert)
    → same_key user_id key a ≡ true
    → (a.user_id ≡ user_id) × (a.idempotency_key ≡ key)
same_key-fields user_id key a h =
    ground (arith, eq_iff a.user_id user_id, eq_iff a.idempotency_key key)

-- The handler of app/api/ingest.py: once a body has been handled, in whatever way that ended, the
-- same body is answered as a duplicate and changes nothing, so it sends no order again. The first
-- request starts from what is committed, other workers' rows before its commit have new keys, and the
-- body can be normalised.
pub ingest_alert_again :
    {Body : Type 0} (world : World Body) (user : User) (body : Body) (t : String) (s : Session)
    → IsFresh s
    → world.normalized_text body ≡ ok t
    → let s' = (ingest_alert world user body s).1 in
      (id : ℕ) × (ingest_alert world user body s' ≡ (ok (duplicate id), s'))
unfolding ingest_alert
ingest_alert_again world user body t s f n =
    let p = process_inbound_alert world user body none s in
    let closed = recover-session world user body none p in
    let (id, e) =
      process_known world user body none t (record p.1 { db = p.1.saved }) n
        (process_inbound_alert-IsKnown world user body none t s f n).1 in
    (
      id,
      subst
          (λ q.
            recover world user body none (process_inbound_alert world user body none q)
            ≡ (ok (duplicate id), q))
          (sym closed)
          (ap (recover world user body none) e
            ∙ recovered world user body none (duplicate id) (record p.1 { db = p.1.saved })),
    )

-- If processing a request raises an integrity error, as it does when another worker has committed its
-- key, the handler answers a duplicate with the id of an alert that is committed, is the user's and has
-- the key of the request. The request starts from what is committed, other workers' rows before its
-- commit have new keys, and the body can be normalised.
pub ingest_alert_raced :
    {Body : Type 0} (world : World Body) (user : User) (body : Body) (t : String) (s : Session)
    → IsFresh s
    → world.normalized_text body ≡ ok t
    → (process_inbound_alert world user body none s).0 ≡ err integrity_error
    → let (answer, s') = ingest_alert world user body s in
      (a : InboundAlert) × In a s'.saved.alerts
      × (a.user_id ≡ user.id)
      × (a.idempotency_key ≡ world.resolve_idempotency_key user body none)
      × (answer ≡ ok (duplicate a.id))
unfolding ingest_alert
ingest_alert_raced world user body t s f n e =
    let p = process_inbound_alert world user body none s in
    let key = world.resolve_idempotency_key user body none in
    let (a, found, answered) =
      duplicate_row world user body none p.1
        (process_inbound_alert-IsKnown world user body none t s f n).1 in
    let (same_user, same) =
      same_key-fields user.id key a (find_sound (same_key user.id key) p.1.saved.alerts a found) in
    (
      a,
      subst (λ q. In a q.saved.alerts) (sym (recover-session world user body none p))
          (find-In (same_key user.id key) p.1.saved.alerts a found),
      same_user,
      same,
      ap (λ r. (recover world user body none (r, p.1)).0) e ∙ answered,
    )

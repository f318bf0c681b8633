-- ===== src/Webhook/Log.antt =====
-- What logging a feedback changes.
use robo_control.Prelude.{
  ◌≡◌, ◌⊎◌, inl, inr, refl, String, Bool, true, false, some, [], ◌∷◌, ◌++◌, if-cases,
}
use robo_control.Errors.{Result, ok, raise}
use robo_control.World.{Env, World}
use robo_control.World.Rules.{result_rule}
use robo_control.World.Session.{commit}
use robo_control.World.Session.Laws.{commit-ok, commit-raise, commit-refused}
use robo_control.Webhook.{TaskFeedbackPayload, log_row, with_row, swallowed, log_event}

swallowed-returns : (out : Result (Unit {0}) × World) → swallowed out ≡ (ok tt, (swallowed out).1)
swallowed-returns (ok _, w) = refl
swallowed-returns (raise _, w) = refl

module _ (env : Env) (has_session : Bool) (raw_body : String) (payload : TaskFeedbackPayload) where
  -- The world in which the session has another table and has committed another number of times.
  abbrev pub but_for_session : World → World → World
  but_for_session w v = record w { db = v.db; tx = v.tx; commits = v.commits }

  -- There is no session, or the database refuses the row.
  abbrev pub Unlogged : Bool → Bool → World → Type 0
  Unlogged sig_valid duplicate w =
      (has_session ≡ false)
      ⊎ ((reason : String) × (env.commit_error w.commits
              (with_row env has_session raw_body payload sig_valid duplicate w).tx
            ≡ some reason))

  -- All of a world but the log and the session is as before, and the log has the row
  -- if there is a session, and is as before only if there is none or the database refuses the row.
  pub record Logs (sig_valid duplicate : Bool) (w v : World) : Type 0 where
    pub same_else : v ≡ but_for_session w v
    pub logged :
        ((v.db ≡ w.db) × Unlogged sig_valid duplicate w)
        ⊎ ((has_session ≡ true)
            × (v.db ≡ record w.db {
              logs =
                  w.db.logs
                  ++ log_row payload raw_body sig_valid duplicate (env.next_log_id w.commits) w.now
                    ∷ [];
            }))
    pub clean : v.tx ≡ v.db

  commit-Logs :
      (sig_valid duplicate : Bool) (w : World)
      → has_session ≡ true
      → w.tx ≡ w.db
      → Logs sig_valid duplicate w
          (swallowed
            (commit env (with_row env has_session raw_body payload sig_valid duplicate w))).1
  commit-Logs sig_valid duplicate w present clean =
      let w₁ = with_row env has_session raw_body payload sig_valid duplicate w in
      result_rule (λ out. Logs sig_valid duplicate w (swallowed out).1) (commit env) w₁
        (λ _ v done.
          let after = commit-ok env w₁ v done in
          rw after
            (record { same_else = refl; logged = inr (present, rw clean refl); clean = refl }))
        (λ x v failed.
          let after = commit-raise env w₁ v x failed in
          let why = commit-refused env w₁ v x failed in
          rw after (record { same_else = refl; logged = inl (refl, inr why); clean = refl }))

  pub log_event-Logs :
      (sig_valid duplicate : Bool) (w : World)
      → w.tx ≡ w.db
      → Logs sig_valid duplicate w
          (log_event env has_session raw_body payload sig_valid duplicate w).1
  unfolding log_event
  log_event-Logs sig_valid duplicate w clean =
      if-cases (λ (out : Result (Unit {0}) × World). Logs sig_valid duplicate w out.1) has_session
        (swallowed (commit env (with_row env has_session raw_body payload sig_valid duplicate w)))
        (ok tt, w) (λ present. commit-Logs sig_valid duplicate w present clean)
        (λ none_. record { same_else = refl; logged = inl (refl, inl none_); clean = clean })

  pub log_event-returns :
      (sig_valid duplicate : Bool) (w : World)
      → log_event env has_session raw_body payload sig_valid duplicate w
        ≡ (ok tt, (log_event env has_session raw_body payload sig_valid duplicate w).1)
  unfolding log_event
  log_event-returns sig_valid duplicate w =
      if-cases (λ (out : Result (Unit {0}) × World). out ≡ (ok tt, out.1)) has_session
        (swallowed (commit env (with_row env has_session raw_body payload sig_valid duplicate w)))
        (ok tt, w)
        (λ _.
          swallowed-returns
            (commit env (with_row env has_session raw_body payload sig_valid duplicate w)))
        (λ _. refl)

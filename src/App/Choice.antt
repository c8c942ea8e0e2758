-- ===== src/App/Choice.antt =====
-- Which finality provider finality-gadget/operator/fp/app.go starts.
use blitz.Base.{
  ℕ, ◌≡◌, ◌≢◌, inl, inr, String, Bool, true, List, [], ◌∷◌, Error, Reply, value, ◌==◌, string_eq,
  ◌&&◌, Bool-cases, Reply-cases,
}
use blitz.Exec.{Exec, pure, raise, gets, modify, ◌>>=◌}
use blitz.Exec.Preserves.{Preserves, Preserves-wrapping, Preserves-bind}
use blitz.Process.{within}
use blitz.Process.Keeps as Kept
use blitz.Process.Keeps.{
  Keeps-pure, Keeps-result, Keeps-or_exit, Keeps-if, Keeps-modify, Keeps-bind, Keeps-within,
}
use blitz.Process.Leads.{Leads, Leads-bind, Leads-then}
use blitz.App.Starts.{serves_rpc, open_rpc, run_rpc, start_rpc, method, start}
use blitz.App.{
  AppEnv, AppConfig, AppWorld, ask, start_instance, start_by_key, start_stored, start_by_store,
  start_chosen, close_quit, wait, stop_all, stop_impl,
}

module _ (e : AppEnv) where
  -- What may have been started: nothing, the provider of the given key, or without a key the only
  -- one that is stored.
  pub data Chosen (fp_pk_str : String) : List e.Pk → Type 0 where
    nothing : Chosen fp_pk_str []
    given :
        (pk : e.Pk)
        → fp_pk_str ≢ ""
        → e.pub_key_from_hex fp_pk_str ≡ value pk
        → Chosen fp_pk_str (pk ∷ [])
    only :
        (pk : e.Pk) (t : ℕ)
        → fp_pk_str ≡ ""
        → e.get_all_stored_finality_providers t ≡ value (pk ∷ [])
        → Chosen fp_pk_str (pk ∷ [])

  module _ (P : List e.Pk → Type 0) where
    abbrev Keeps : {A : Type 0} → Exec (AppWorld e.Pk) A → Type 0
    Keeps m = Preserves (λ w. P w.started) m

    asks : {A : Type 0} (wrapper : Error → Error) (call : ℕ → Reply A) → Keeps (ask e wrapper call)
    unfolding ask
    asks wrapper call = record { after = λ w h. h }

    quits : Keeps (close_quit e)
    unfolding close_quit ◌>>=◌ gets modify raise
    quits = record {
      after = λ w h. elim (Bool-cases w.quit_closed) [ inl c ↦ rw c h | inr o ↦ rw o h ];
    }

    stops_all : Keeps (stop_all e)
    unfolding stop_all wait modify
    stops_all = Preserves-bind _ _ quits (λ _.
        Preserves-bind _ _ (record { after = λ w h. h })
          (λ _.
            Preserves-bind _ _ (record { after = λ w h. h })
              (λ _.
                Preserves-bind _ _ (asks _ _)
                  (λ _. Preserves-bind _ _ (record { after = λ w h. h }) (λ _. asks _ _)))))

    stops : Keeps (stop_impl e)
    unfolding stop_impl ◌>>=◌ gets modify pure
    stops = record {
      after = λ w h. elim (Bool-cases w.stop_once) [
        | inl done ↦ rw done h
        | inr fresh ↦ rw fresh (stops_all.after (record w { stop_once = true }) h)
      ];
    }

  start_by_key-Chosen :
      (fp_pk_str : String) (w : AppWorld e.Pk)
      → fp_pk_str ≢ ""
      → w.started ≡ []
      → Chosen fp_pk_str (start_by_key e fp_pk_str w).1.started
  unfolding start_by_key ask ◌>>=◌ start_instance modify
  start_by_key-Chosen fp_pk_str w given' none_yet =
      elim (Reply-cases (e.pub_key_from_hex fp_pk_str)) [
        | inl (pk, q) ↦ rw (q, none_yet) (given pk given' q)
        | inr (m, q) ↦ rw (q, none_yet) nothing
      ]

  start_stored-Chosen :
      (fp_pk_str : String) (w : AppWorld e.Pk) (t : ℕ) (stored : List e.Pk)
      → fp_pk_str ≡ ""
      → w.started ≡ []
      → e.get_all_stored_finality_providers t ≡ value stored
      → Chosen fp_pk_str (start_stored e stored w).1.started
  unfolding start_stored start_instance ask modify ◌>>=◌ pure raise
  start_stored-Chosen fp_pk_str w t [] none_given none_yet q = rw none_yet nothing
  start_stored-Chosen fp_pk_str w t (pk ∷ []) none_given none_yet q =
      rw none_yet (only pk t none_given q)
  start_stored-Chosen fp_pk_str w t (pk ∷ other ∷ rest) none_given none_yet q = rw none_yet nothing

  start_by_store-Chosen :
      (fp_pk_str : String) (w : AppWorld e.Pk)
      → fp_pk_str ≡ ""
      → w.started ≡ []
      → Chosen fp_pk_str (start_by_store e w).1.started
  unfolding start_by_store ask ◌>>=◌
  start_by_store-Chosen fp_pk_str w none_given none_yet =
      elim (Reply-cases (e.get_all_stored_finality_providers w.instant)) [
        | inl (stored, q) ↦
            rw q (start_stored-Chosen fp_pk_str _ w.instant stored none_given none_yet q)
        | inr (m, q) ↦ rw (q, none_yet) nothing
      ]

  start_chosen-Chosen :
      (fp_pk_str : String) (w : AppWorld e.Pk)
      → w.started ≡ []
      → Chosen fp_pk_str (start_chosen e fp_pk_str w).1.started
  unfolding start_chosen
  start_chosen-Chosen fp_pk_str w none_yet = elim (Bool-cases (fp_pk_str == "")) [
    | inl same ↦
        rw same
          (start_by_store-Chosen fp_pk_str w ((string_eq.same_iff fp_pk_str "").0 same) none_yet)
    | inr other ↦ rw other (
        start_by_key-Chosen fp_pk_str w
          (λ q. let same = (string_eq.same_iff fp_pk_str "").1 q in cc) none_yet)
  ]

  module _ (P : AppWorld e.Pk → Type 0) where
    runs_rpc : (now : Bool) (app : AppConfig) → Kept.Keeps (Unit {0}) P (run_rpc e now app)
    unfolding run_rpc open_rpc
    runs_rpc now app =
        Keeps-if _ _ (serves_rpc e app && now) _ _
          (Keeps-bind _ _ _ _ (Keeps-or_exit _ _ _ (Keeps-result _ _ _)) (λ u.
            Keeps-bind _ _ _ _ (Keeps-or_exit _ _ _ (Keeps-result _ _ _))
              (λ url. Keeps-pure _ _ tt)))
          (Keeps-pure _ _ tt)

  starts_rpc :
      (P : List e.Pk → Type 0) (app : AppConfig)
      → Kept.Keeps (Unit {0}) (λ w. P w.started) (start_rpc e app)
  unfolding start_rpc
  starts_rpc P app =
      Keeps-bind _ _ _ _
        (Keeps-modify _ _ _ (λ w h. elim (Bool-cases (serves_rpc e app)) [
          | inl serves ↦ rw serves h
          | inr none ↦ rw none h
        ]))
        (λ u. runs_rpc _ _ app)

  chosen-Leads :
      (fp_pk_str : String)
      → Leads
          (λ u. u.started ≡ [])
          (λ u. Chosen fp_pk_str u.started)
          (method e (start_chosen e fp_pk_str))
  unfolding within
  chosen-Leads fp_pk_str = record { led = λ s h. start_chosen-Chosen fp_pk_str s h }

  start-Leads :
      (app : AppConfig) (fp_pk_str : String)
      → Leads (λ u. u.started ≡ []) (λ u. Chosen fp_pk_str u.started) (start e app fp_pk_str)
  unfolding start
  start-Leads app fp_pk_str =
      Leads-bind _ _ (Unit {0}) _ _
        (Keeps-within _ _ _ _ _ (λ s h. (asks (λ l. l ≡ []) _ _).after s h))
        (λ u.
          Leads-bind _ _ _ _ _ (starts_rpc (λ l. l ≡ []) app)
            (λ v. Leads-then _ _ _ _ _ (chosen-Leads fp_pk_str) (λ x.
              Keeps-bind _ _ _ _ (runs_rpc (λ u. Chosen fp_pk_str u.started) _ app) (λ y.
                Keeps-within _ _ _ _ _
                  (λ s h. (Preserves-wrapping _ _ (stops (Chosen fp_pk_str))).after s h))))
            empty)
        empty
    where
      empty : (s : AppWorld e.Pk) → s.started ≡ [] → Chosen fp_pk_str s.started
      empty s h = rw h nothing

  -- With nothing started before, `Start` starts at most one finality provider, however it ends:
  -- that of the given key, or without a key the only one that is stored.
  pub start-Chosen :
      (app : AppConfig) (fp_pk_str : String) (w : AppWorld e.Pk)
      → w.started ≡ []
      → Chosen fp_pk_str (start e app fp_pk_str w).1.started
  start-Chosen app fp_pk_str w none_yet = (start-Leads app fp_pk_str).led w none_yet

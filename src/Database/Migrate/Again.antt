-- ===== src/Database/Migrate/Again.antt =====
-- Migrations that run a second time.
use pr_sentinel.Prelude.{
  ◌≡◌, inl, inr, refl, sym, subst, Bool, true, false, List, [], ◌∷◌, ◌++◌, Text, text_eq_refl, All,
  Bool-cases, map, arith,
}
use pr_sentinel.Runtime.{Unicode}
use pr_sentinel.Database.Migrate.{
  Schema, Applied, execute_all, is_applied, split_statements, apply_file, apply_from,
  apply_migrations, ledger_statement,
}

execute_all-ledger :
    (runs : Text → Bool) (stmts : List Text) (db : Schema)
    → (execute_all runs stmts db).0.ledger ≡ db.ledger
unfolding execute_all
execute_all-ledger runs [] db = refl
execute_all-ledger runs (stmt ∷ stmts) db = elim (Bool-cases (runs stmt)) [
  | inl t ↦
      rw (execute_all, t)
        (execute_all-ledger runs stmts (record db { executed = stmt ∷ db.executed }))
  | inr f ↦ rw (execute_all, f) refl
]

module _ (U : Unicode) (checksum : Text → Text) (runs : Text → Bool) where
  -- A file that runs to its end is in the ledger, and the ledger keeps what it has.
  apply_file-applied :
      (name sql : Text) (db : Schema)
      → ((apply_file U checksum runs name sql db).1 ≡ true
          → is_applied name (apply_file U checksum runs name sql db).0 ≡ true)
        × ((n : Text)
            → is_applied n db ≡ true
            → is_applied n (apply_file U checksum runs name sql db).0 ≡ true)
  unfolding apply_file is_applied
  apply_file-applied name sql db =
      elim (Bool-cases (execute_all runs (split_statements U sql) db).1) [
        | inl t ↦
            rw (apply_file, t)
              (
                (λ _. ground (arith, text_eq_refl name)),
                λ n h. ground (arith, h, execute_all-ledger runs (split_statements U sql) db),
              )
        | inr f ↦
            rw (apply_file, f)
              (
                (λ e. absurd (ground (arith, e))),
                λ n h. rw (execute_all-ledger runs (split_statements U sql) db) h,
              )
      ]

  abbrev AllApplied : List (Text × Text) → Schema → Type 0
  AllApplied files db = All (λ n. is_applied n db ≡ true) (map (λ f. f.0) files)

  apply_from-keeps :
      (files : List (Text × Text)) (db : Schema) (names : List Text) (n : Text)
      → is_applied n db ≡ true
      → is_applied n (apply_from U checksum runs files db names).schema ≡ true
  unfolding apply_from
  apply_from-keeps [] db names n h = h
  apply_from-keeps ((name, sql) ∷ files) db names n h = elim (Bool-cases (is_applied name db)) [
    | inl t ↦ rw (apply_from, t) (apply_from-keeps files db names n h)
    | inr f ↦ elim (Bool-cases (apply_file U checksum runs name sql db).1) [
      | inl all ↦
          rw (apply_from, f, all)
            (apply_from-keeps files (apply_file U checksum runs name sql db).0 (names ++ name ∷ [])
              n ((apply_file-applied name sql db).1 n h))
      | inr some_failed ↦ rw (apply_from, f, some_failed) ((apply_file-applied name sql db).1 n h)
    ]
  ]

  -- A file that is in the ledger is passed over; one that runs to its end is entered; and one that
  -- fails ends the run.
  passed_over :
      (name sql : Text) (files : List (Text × Text)) (db : Schema) (names : List Text)
      → is_applied name db ≡ true
      → apply_from U checksum runs ((name, sql) ∷ files) db names
        ≡ apply_from U checksum runs files db names
  unfolding apply_from
  passed_over name sql files db names t = rw (apply_from, t) refl

  entered :
      (name sql : Text) (files : List (Text × Text)) (db : Schema) (names : List Text)
      → is_applied name db ≡ false
      → (apply_file U checksum runs name sql db).1 ≡ true
      → apply_from U checksum runs ((name, sql) ∷ files) db names
        ≡ apply_from U checksum runs files
            (apply_file U checksum runs name sql db).0
            (names ++ name ∷ [])
  unfolding apply_from
  entered name sql files db names f all = rw (apply_from, f, all) refl

  failed :
      (name sql : Text) (files : List (Text × Text)) (db : Schema) (names : List Text)
      → is_applied name db ≡ false
      → (apply_file U checksum runs name sql db).1 ≡ false
      → (apply_from U checksum runs ((name, sql) ∷ files) db names).finished ≡ false
  unfolding apply_from
  failed name sql files db names f some_failed = rw (apply_from, f, some_failed) refl

  Completed : List (Text × Text) → Applied → Type 0
  Completed files a = a.finished ≡ true → AllApplied files a.schema

  apply_from-Completed :
      (files : List (Text × Text)) (db : Schema) (names : List Text)
      → Completed files (apply_from U checksum runs files db names)
  unfolding Completed
  apply_from-Completed [] db names = λ h. tt
  apply_from-Completed ((name, sql) ∷ files) db names = elim (Bool-cases (is_applied name db)) [
    | inl t ↦
        subst (Completed ((name, sql) ∷ files)) (sym (passed_over name sql files db names t))
          (λ h. (apply_from-keeps files db names name t, apply_from-Completed files db names h))
    | inr f ↦ elim (Bool-cases (apply_file U checksum runs name sql db).1) [
      | inl all ↦
          subst (Completed ((name, sql) ∷ files)) (sym (entered name sql files db names f all))
            (λ h. (
              apply_from-keeps files (apply_file U checksum runs name sql db).0 (names ++ name ∷ [])
                  name ((apply_file-applied name sql db).0 all),
              apply_from-Completed files (apply_file U checksum runs name sql db).0
                  (names ++ name ∷ []) h,
            ))
      | inr some_failed ↦
          λ h. absurd (ground (arith, h, failed name sql files db names f some_failed))
    ]
  ]

  apply_from-skips :
      (files : List (Text × Text)) (db : Schema) (names : List Text)
      → AllApplied files db
      → apply_from U checksum runs files db names
        ≡ record { schema = db; names = names; finished = true }
  unfolding apply_from
  apply_from-skips [] db names h = refl
  apply_from-skips ((name, sql) ∷ files) db names h =
      rw (apply_from, h.0) (apply_from-skips files db names h.1)

  -- After a run of apply_migrations that ends, another run over the same files, with whatever contents
  -- they have by then, runs no statement but the one that makes the ledger if there is none, applies
  -- nothing, and leaves the rows of the ledger as they are.
  pub apply_migrations_again :
      (files later : List (Text × Text)) (db : Schema)
      → (apply_migrations U checksum runs files db).finished ≡ true
      → map (λ f. f.0) later ≡ map (λ f. f.0) files
      → let after = (apply_migrations U checksum runs files db).schema in
        apply_migrations U checksum runs later after ≡ record {
          schema = record { ledger = after.ledger; executed = ledger_statement ∷ after.executed };
          names = [];
          finished = true;
        }
  unfolding apply_migrations Completed is_applied
  apply_migrations_again files later db done same = apply_from-skips later _ [] (
      same_names files later
        (apply_from U checksum runs files (record db { executed = ledger_statement ∷ db.executed })
          []).schema
        same
        (apply_from-Completed files (record db { executed = ledger_statement ∷ db.executed }) []
          done))
    where
      same_names :
          (fs gs : List (Text × Text)) (s : Schema)
          → map (λ f. f.0) gs ≡ map (λ f. f.0) fs
          → AllApplied fs s
          → AllApplied gs s
      same_names fs gs s e h = subst (λ names. All (λ n. is_applied n s ≡ true) names) (sym e) h

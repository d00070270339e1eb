-- ===== src/Runtime/Registry.antt =====
-- src/runtime/context.rs and src/runtime/registry.rs: handlers by task name.
-- A handler's future is the result that it yields once it is ready. `serde_json::from_value` of the
-- type of a handler's arguments is an argument. The `HashMap` is an association list, with its
-- unspecified order of iteration; a cancellation token is known by a number.
use pg_task_scheduler.Prelude.{
  ℕ, ◌≡◌, refl, sym, ap, ◌∙◌, arith, Text, text_eq, Bool, true, false, List, [], ◌∷◌, Option, none,
  some, map, Result, ok, err, if◌then◌else◌, is_some, any, Bool-cases, Option-cases, text_eq→≡, inl,
  inr,
}
use pg_task_scheduler.Error.{DuplicateJobName, JobError, from_error}
use pg_task_scheduler.Ids.{JobName}

pub record JobContext : Type 0 where
  pub run_id : ℕ
  pub job_id : Option ℕ
  pub job_name : JobName
  pub scheduled_for : ℕ
  pub attempt : ℕ
  pub lease_token : ℕ
  pub lease_expires_at : ℕ
  pub cancellation : ℕ

abbrev pub Handler : Type 0
Handler = JobContext → Text → Result JobError (Unit {0})

pub record Registry : Type 0 where
  pub handlers : List (JobName × Handler)

-- `Registry::new`.
unfoldable pub empty_registry : Registry
empty_registry = record { handlers = [] }

unfoldable pub is_empty : Registry → Bool
is_empty registry = elim registry.handlers [ [] ↦ true | x ∷ xs ↦ false ]

unfoldable pub names : Registry → List Text
names registry = map (λ entry. entry.0.as_str) registry.handlers

unfoldable pub lookup : JobName → List (JobName × Handler) → Option Handler
lookup name [] = none
lookup name ((key, handler) ∷ entries) =
    let rest = lookup name entries in if text_eq name.as_str key.as_str then some handler else rest

-- `Registry::get`.
unfoldable pub handler_of : Registry → JobName → Option Handler
handler_of registry name = lookup name registry.handlers

unfoldable pub contains_key : Registry → JobName → Bool
contains_key registry name = is_some (handler_of registry name)

module _ {A : Type 0} (from_value : Text → Result Text A) where
  abbrev pub call :
      (JobContext → A → Result JobError (Unit {0}))
      → JobContext
      → Result Text A
      → Result JobError (Unit {0})
  call handler ctx (ok args) = handler ctx args
  call handler ctx (err e) = err (from_error e)

  -- The boxed handler.
  unfoldable pub boxed : (JobContext → A → Result JobError (Unit {0})) → Handler
  boxed handler ctx value = call handler ctx (from_value value)

  unfoldable pub register :
      JobName
      → (JobContext → A → Result JobError (Unit {0}))
      → Registry
      → Registry × Result DuplicateJobName (Unit {0})
  unfolding boxed
  register name handler registry =
      if contains_key registry name
      then (registry, err (record { name = name }))
      else (record { handlers = (name, boxed handler) ∷ registry.handlers }, ok tt)

  abbrev pub first_wins : Option Handler → Handler → Bool → Option Handler
  first_wins (some old) new hit = some old
  first_wins none new hit = if hit then some new else none

  abbrev pub registered : Option Handler → JobName → Result DuplicateJobName (Unit {0})
  registered (some old) name = err (record { name = name })
  registered none name = ok tt

  same_name : (m n : JobName) → text_eq m.as_str n.as_str ≡ true → m ≡ n
  same_name m n h = λ i. record { as_str = text_eq→≡ m.as_str n.as_str h i }

  register-boxed :
      (name m : JobName) (handler : JobContext → A → Result JobError (Unit {0}))
      (registry : Registry)
      → ((register name handler registry).1 ≡ registered (handler_of registry name) name)
        × (handler_of (register name handler registry).0 m
            ≡ first_wins (handler_of registry m) (boxed handler) (text_eq m.as_str name.as_str))
  unfolding register contains_key handler_of lookup
  register-boxed name m handler registry = elim (Option-cases (lookup name registry.handlers)) [
    | inr (old, taken) ↦ rw taken (
      refl,
      elim (Option-cases (lookup m registry.handlers)) [
        | inr (handler, found) ↦ rw found refl
        | inl unknown ↦ rw unknown (elim (Bool-cases (text_eq m.as_str name.as_str)) [
          | inl same ↦
              let clash : some old ≡ none =
                sym taken
                ∙ ap (λ n. lookup n registry.handlers) (sym (same_name m name same))
                ∙ unknown in
              absurd (ground arith)
          | inr other ↦ rw other refl
        ])
      ],
    )
    | inl free ↦ rw free (
      refl,
      elim (Bool-cases (text_eq m.as_str name.as_str)) [
        | inl same ↦
            let gone : lookup m registry.handlers ≡ none =
              ap (λ n. lookup n registry.handlers) (same_name m name same) ∙ free in
            rw (same, gone) refl
        | inr other ↦ rw other (elim (Option-cases (lookup m registry.handlers)) [
          | inr (handler, found) ↦ rw found refl
          | inl unknown ↦ rw unknown refl
        ])
      ],
    )
  ]

  -- A handler over the JSON of its arguments: arguments that do not read fail it for good.
  abbrev pub decoded :
      (JobContext → A → Result JobError (Unit {0}))
      → JobContext
      → Result Text A
      → Result JobError (Unit {0})
  decoded handler ctx (ok args) = handler ctx args
  decoded handler ctx (err e) = err (record { source = e; retryable = false })

  call-decoded :
      (handler : JobContext → A → Result JobError (Unit {0})) (ctx : JobContext)
      (args : Result Text A)
      → call handler ctx args ≡ decoded handler ctx args
  unfolding from_error
  call-decoded handler ctx (ok args) = refl
  call-decoded handler ctx (err e) = refl

  -- The first handler of a name wins: registration fails exactly when the name is taken, and after
  -- it each name has the handler that it had, or, if it is the registered one and had none, the new
  -- handler, which reads its arguments from JSON and fails with no retry if it cannot.
  pub register_lem :
      (name m : JobName) (handler : JobContext → A → Result JobError (Unit {0}))
      (registry : Registry)
      → ((register name handler registry).1 ≡ registered (handler_of registry name) name)
        × (handler_of (register name handler registry).0 m
            ≡ first_wins
                (handler_of registry m)
                (λ ctx value. decoded handler ctx (from_value value))
                (text_eq m.as_str name.as_str))
  unfolding boxed
  register_lem name m handler registry =
      let (answer, found) = register-boxed name m handler registry in
      (
        answer,
        found ∙ (λ i.
            first_wins (handler_of registry m)
              (λ ctx value. call-decoded handler ctx (from_value value) i)
              (text_eq m.as_str name.as_str)),
      )

lookup-any :
    (name : JobName) (entries : List (JobName × Handler))
    → any (text_eq name.as_str) (map (λ entry. entry.0.as_str) entries)
      ≡ is_some (lookup name entries)
unfolding any lookup
lookup-any name [] = refl
lookup-any name ((key, handler) ∷ entries) = elim (Bool-cases (text_eq name.as_str key.as_str)) [
  | inl hit ↦ rw hit refl
  | inr miss ↦ rw miss (lookup-any name entries)
]

-- The names that a worker claims tasks for are exactly those that have a handler.
pub names_iff :
    (registry : Registry) (name : JobName)
    → any (text_eq name.as_str) (names registry) ≡ is_some (handler_of registry name)
unfolding names handler_of
names_iff registry name = lookup-any name registry.handlers

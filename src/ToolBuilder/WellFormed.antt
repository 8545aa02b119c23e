-- ===== src/ToolBuilder/WellFormed.antt =====
-- The required parameters of a tool are declared ones, each named once.
use gemini_agent_lib.Prelude.{
  String, ◌≡◌, ◌≢◌, refl, true, false, Option, none, some, List, [], ◌∷◌, ◌++◌, arith, eq_iff, All,
  is_empty, Bool-cases, inl, inr,
}
use gemini_agent_lib.Prelude.Dict.{Dict, get, put, has, get-put}
use gemini_agent_lib.Prelude.Action.{Outcome, returned, thrown, Action, continue}
use gemini_agent_lib.Value.{Value, arr}
use gemini_agent_lib.SchemaType.{SchemaType}
use gemini_agent_lib.ToolBuilder.{
  Property, ToolDefinition, includes, new, is_true, add_typed, with_property, convert_type,
  set_parameter_required, declare, add_declared, add_parameter, add_enum_to_parameter, set_function,
  Call, add_parameter_call, set_required_call, add_enum_call, set_function_call, call, call_all,
}

abbrev Declared : Dict Property → List String → Type 0
Declared properties names = All (λ n. has properties n ≡ true) names

abbrev Distinct : List String → Type 0
Distinct [] = Unit
Distinct (n ∷ names) = (includes names n ≡ false) × Distinct names

module _ {R : Type 0} where
  pub record IsWellFormed (b : ToolDefinition R) : Type 0 where
    pub declared : Declared b.properties b.required
    pub distinct : Distinct b.required

Declared-put :
    (d : Dict Property) (k : String) (p : Property) (names : List String)
    → Declared d names
    → Declared (put d k p) names
Declared-put d k p [] h = tt
Declared-put d k p (n ∷ names) (h, hs) =
    (ground (arith, get-put d k n p, h), Declared-put d k p names hs)

Declared-append :
    (d : Dict Property) (names : List String) (n : String)
    → Declared d names
    → has d n ≡ true
    → Declared d (names ++ n ∷ [])
Declared-append d [] n h e = (e, tt)
Declared-append d (m ∷ names) n (h, hs) e = (h, Declared-append d names n hs e)

includes-append :
    (names : List String) (n m : String)
    → includes names m ≡ false
    → n ≢ m
    → includes (names ++ n ∷ []) m ≡ false
includes-append [] n m h e = ground (arith, eq_iff n m)
includes-append (k ∷ names) n m h e = ground (arith, includes-append names n m)

Distinct-append :
    (names : List String) (n : String)
    → Distinct names
    → includes names n ≡ false
    → Distinct (names ++ n ∷ [])
Distinct-append [] n h e = (refl, tt)
Distinct-append (m ∷ names) n (h, hs) e = (
  includes-append names n m h (λ q. ground (arith, eq_iff m n)),
  Distinct-append names n hs (ground arith),
)

module _ {R : Type 0} where
  required-IsWellFormed :
      (b : ToolDefinition R) (n : String)
      → IsWellFormed b
      → IsWellFormed (set_parameter_required n b).1
  unfolding set_parameter_required
  required-IsWellFormed b n w = elim (Bool-cases (has b.properties n)) [
    | inr absent ↦ rw absent w
    | inl present ↦ elim (Bool-cases (includes b.required n)) [
      | inl old ↦ rw (present, old) w
      | inr fresh ↦
          rw (present, fresh)
            (record {
              declared = Declared-append b.properties b.required n w.declared present;
              distinct = Distinct-append b.required n w.distinct fresh;
            })
    ]
  ]

  declare-IsWellFormed :
      (n : String) (t : SchemaType) (d : String) (o : Dict Value) (b : ToolDefinition R)
      → IsWellFormed b
      → IsWellFormed (declare n t d o b)
  declare-IsWellFormed n t d o b w = record {
    declared = Declared-put b.properties n _ b.required w.declared;
    distinct = w.distinct;
  }

  add_declared-IsWellFormed :
      (n d : String) (o : Dict Value) (t : SchemaType) (b : ToolDefinition R)
      → IsWellFormed b
      → IsWellFormed (add_declared n d o t b).1
  add_declared-IsWellFormed n d o t b w = elim (Bool-cases (is_true (get o "required"))) [
    | inl e ↦ rw e (required-IsWellFormed (declare n t d o b) n (declare-IsWellFormed n t d o b w))
    | inr e ↦ rw e (declare-IsWellFormed n t d o b w)
  ]

  typed-IsWellFormed :
      (n d ty : String) (o : Dict Value) (r : Outcome SchemaType) (b : ToolDefinition R)
      → IsWellFormed b
      → IsWellFormed (add_typed n d ty o r b).1
  typed-IsWellFormed n d ty o (returned t) b w = add_declared-IsWellFormed n d o t b w
  typed-IsWellFormed n d ty o (thrown e) b w = w

  add_parameter-IsWellFormed :
      (n ty d : String) (o : Dict Value) (b : ToolDefinition R)
      → IsWellFormed b
      → IsWellFormed (add_parameter n ty d o b).1
  unfolding add_parameter
  add_parameter-IsWellFormed n ty d o b w = elim (Bool-cases (is_empty n)) [
    | inl e ↦ rw e w
    | inr e ↦ rw e (elim (Bool-cases (is_empty ty)) [
      | inl e' ↦ rw e' w
      | inr e' ↦ rw e' (elim (Bool-cases (is_empty d)) [
        | inl k ↦ rw k w
        | inr k ↦ rw k (typed-IsWellFormed n d ty o (convert_type ty) b w)
      ])
    ])
  ]

  property-IsWellFormed :
      (n : String) (v : Value) (p : Option Property) (b : ToolDefinition R)
      → IsWellFormed b
      → IsWellFormed (with_property n v p b).1
  property-IsWellFormed n v none b w = w
  property-IsWellFormed n (arr xs) (some p) b w = record {
    declared = Declared-put b.properties n _ b.required w.declared;
    distinct = w.distinct;
  }
  property-IsWellFormed n _ (some p) b w = w

  enum-IsWellFormed :
      (n : String) (v : Value) (b : ToolDefinition R)
      → IsWellFormed b
      → IsWellFormed (add_enum_to_parameter n v b).1
  unfolding add_enum_to_parameter
  enum-IsWellFormed n v b w = property-IsWellFormed n v (get b.properties n) b w

  function-IsWellFormed :
      (f : Option (Dict Value → R)) (b : ToolDefinition R)
      → IsWellFormed b
      → IsWellFormed (set_function f b).1
  unfolding set_function
  function-IsWellFormed none b w = w
  function-IsWellFormed (some f) b w = record { declared = w.declared; distinct = w.distinct }

  call-IsWellFormed :
      (c : Call R) (b : ToolDefinition R) → IsWellFormed b → IsWellFormed (call c b).1
  unfolding call
  call-IsWellFormed (add_parameter_call n t d o) b w = add_parameter-IsWellFormed n t d o b w
  call-IsWellFormed (set_required_call n) b w = required-IsWellFormed b n w
  call-IsWellFormed (add_enum_call n v) b w = enum-IsWellFormed n v b w
  call-IsWellFormed (set_function_call f) b w = function-IsWellFormed f b w

  rest-IsWellFormed :
      (p : Outcome Unit × ToolDefinition R) (m : Action (ToolDefinition R) Unit)
      → IsWellFormed p.1
      → ((b : ToolDefinition R) → IsWellFormed b → IsWellFormed (m b).1)
      → IsWellFormed (continue p (λ _. m)).1
  rest-IsWellFormed (returned a, b) m w k = k b w
  rest-IsWellFormed (thrown e, b) m w k = w

  new-IsWellFormed :
      (name description : String) (b : ToolDefinition R)
      → new name description ≡ returned b
      → IsWellFormed b
  unfolding new
  new-IsWellFormed name description b h =
      let e : b.required ≡ [] = ground arith in record { declared = rw e tt; distinct = rw e tt }

  call_all-IsWellFormed :
      (cs : List (Call R)) (b : ToolDefinition R) → IsWellFormed b → IsWellFormed (call_all cs b).1
  unfolding call_all
  call_all-IsWellFormed [] b w = w
  call_all-IsWellFormed (c ∷ cs) b w =
      rest-IsWellFormed (call c b) (call_all cs) (call-IsWellFormed c b w)
        (call_all-IsWellFormed cs)

  -- Whatever calls are made on a new builder, and whether one of them throws or not, the
  -- parameters that its definition requires are declared in it, and each is required once.
  pub built-IsWellFormed :
      (name description : String) (b : ToolDefinition R) (cs : List (Call R))
      → new name description ≡ returned b
      → IsWellFormed (call_all cs b).1
  built-IsWellFormed name description b cs h =
      call_all-IsWellFormed cs b (new-IsWellFormed name description b h)

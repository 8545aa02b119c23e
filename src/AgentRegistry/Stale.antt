-- ===== src/AgentRegistry/Stale.antt =====
-- Registering a role again does not drop its model client: the cache of clients is keyed by
-- role, mode and model, and `registerSpecialist` deletes the entry of the bare role.
use Prim.Native.String.{count}
use text.Mathlib.TextLemmas.{length-append}
use gemini_agent_lib.Prelude.{
  String, ◌≡◌, refl, ap, ◌∙◌, Bool, true, false, none, some, arith, eq_iff, ◌==◌, ◌+++◌, is_empty,
  Bool-cases, inl, inr,
}
use gemini_agent_lib.Prelude.Dict.{
  get, put, remove, get-put_self, get-remove_self, get-remove_other,
}
use gemini_agent_lib.Prelude.Action.{Outcome, returned, thrown, Returns, Returns-use}
use gemini_agent_lib.AgentRegistry.{
  SpecialistConfig, Env, LlmConfig, LlmInstance, AgentSpec, AgentInstance, AgentRegistry, mode_of,
  model_of, register_specialist, llm_key, spec_of, cached_llm, configured_llm, get_specialist_llm,
  constructed, store_agent, make_agent, cached_agent, configured_agent, get_specialist_agent,
}

llm_key-ne-role :
    {T : Type 0} (env : Env) (role : String) (c : SpecialistConfig T)
    → (role == llm_key env role c) ≡ false
unfolding llm_key
llm_key-ne-role env role c = elim (Bool-cases (role == llm_key env role c)) [
  | inr other ↦ other
  | inl same ↦
      let e : role ≡ role +++ "-" +++ mode_of c +++ "-" +++ model_of env c = (eq_iff _ _).0 same in
      let n = ap count e in
      let m = length-append (role +++ "-" +++ mode_of c +++ "-") (model_of env c) in
      let k = length-append (role +++ "-" +++ mode_of c) "-" in
      let j = length-append (role +++ "-") (mode_of c) in
      let i = length-append role "-" in let one : count "-" ≡ 1 = refl in absurd (omega arith)
]

module _ {T : Type 0} (env : Env) (sdk : LlmConfig → Outcome (Unit {0}))
    (construct : T → AgentSpec T → Outcome (Unit {0})) where
  llm_cached :
      (role : String) (c : SpecialistConfig T) (i : LlmInstance) (r : AgentRegistry T)
      → get r.configs role ≡ some c
      → get r.llm_instances (llm_key env role c) ≡ some i
      → get_specialist_llm env sdk role r ≡ (returned i, r)
  unfolding get_specialist_llm configured_llm cached_llm
  llm_cached role c i r found h = rw (found, configured_llm, h, cached_llm) refl

  abbrev Uses : LlmInstance → AgentInstance T → AgentRegistry T → Type 0
  Uses i a r = a.spec.llm ≡ i

  stored-Uses :
      (role : String) (c : SpecialistConfig T) (i : LlmInstance) (o : Outcome (Unit {0}))
      (r : AgentRegistry T)
      → Returns (Uses i) (store_agent env sdk construct role c (spec_of role c i) o r)
  unfolding store_agent
  stored-Uses role c i (returned _) r = refl
  stored-Uses role c i (thrown e) r = tt

  made-Uses :
      (role : String) (c : SpecialistConfig T) (i : LlmInstance) (r : AgentRegistry T)
      → get_specialist_llm env sdk role r ≡ (returned i, r)
      → Returns (Uses i) (make_agent env sdk construct role c r)
  unfolding make_agent
  made-Uses role c i r e =
      rw e (stored-Uses role c i (constructed env sdk construct c.agent_class (spec_of role c i)) r)

  fresh-Uses :
      (role : String) (c : SpecialistConfig T) (i : LlmInstance) (force_new : Bool)
      (r : AgentRegistry T)
      → get_specialist_llm env sdk role r ≡ (returned i, r)
      → Returns (Uses i) (cached_agent env sdk construct role c force_new none r)
  unfolding cached_agent
  fresh-Uses role c i true r e = made-Uses role c i r e
  fresh-Uses role c i false r e = made-Uses role c i r e

  registered-Uses :
      (role : String) (c : SpecialistConfig T) (i : LlmInstance) (force_new : Bool)
      (r : AgentRegistry T)
      → get r.configs role ≡ some c
      → get r.agent_instances role ≡ none
      → get r.llm_instances (llm_key env role c) ≡ some i
      → Returns (Uses i) (get_specialist_agent env sdk construct role force_new r)
  unfolding get_specialist_agent configured_agent
  registered-Uses role c i force_new r found fresh h =
      rw (found, configured_agent, fresh)
        (fresh-Uses role c i force_new r (llm_cached role c i r found h))

  -- Where a client is cached for the mode and the model of a new configuration, registering that
  -- configuration does not replace it: the agent that is built next for the role uses the old
  -- client, whatever `generationConfig` the new configuration has.
  pub register-keeps_llm :
      (role : String) (c : SpecialistConfig T) (i : LlmInstance) (force_new : Bool)
      (r : AgentRegistry T) (a : AgentInstance T) (r' : AgentRegistry T)
      → is_empty role ≡ false
      → get r.llm_instances (llm_key env role c) ≡ some i
      → get_specialist_agent env sdk construct role force_new
          (register_specialist role (some c) r).1
        ≡ (returned a, r')
      → a.spec.llm ≡ i
  unfolding register_specialist
  register-keeps_llm role c i force_new r a r' named h e =
      let s : AgentRegistry T = record r {
        configs = put r.configs role c;
        llm_instances = remove r.llm_instances role;
        agent_instances = remove r.agent_instances role;
      } in
      let same : (register_specialist role (some c) r).1 ≡ s =
        rw (named, register_specialist) refl in
      let kept =
        get-remove_other r.llm_instances role (llm_key env role c) (llm_key-ne-role env role c)
        ∙ h in
      Returns-use (Uses i) _ a r'
        (registered-Uses role c i force_new s (get-put_self r.configs role c)
          (get-remove_self r.agent_instances role) kept)
        (rw same at e)

-- ===== src/Agent/Loop/Calls.antt =====
-- The messages, the calls and the events of a run: core/doktok_core/agent/loop.py.
use doktok_ng.Prelude.{
  ◌≡◌, refl, sym, subst, Bool, true, false, Option, none, some, List, [], ◌∷◌, ◌++◌, map, All,
  String, str_eq, str_eq_self,
}
use mathlib.Core.List.{append-nil, append_assoc}
use doktok_ng.Agent.Tools.{Tool, invoke}
use doktok_ng.Agent.Messages.{
  Role, system, user, assistant, tool, ToolCall, AgentMessage, ChatEvent, step, reasoning, token,
  Model, State, plain,
}
use doktok_ng.Agent.Loop.{answer_to, run_calls, call_steps}

-- The ids of the calls of a message that ask for an answer.
abbrev pub ids_of : {A : Type 0} → List (ToolCall A) → List String
ids_of [] = []
ids_of (c ∷ cs) = c.id ∷ ids_of cs

abbrev pub is_answer_to : Option String → List String → Bool
is_answer_to none ids = false
is_answer_to (some id) [] = false
is_answer_to (some id) (i ∷ ids) = str_eq i id

abbrev pub tail : List String → List String
tail [] = []
tail (i ∷ ids) = ids

abbrev pub is_empty : List String → Bool
is_empty [] = true
is_empty (i ∷ ids) = false

abbrev pub is_tool : Role → Bool
is_tool tool = true
is_tool _ = false

abbrev pub is_step : {C : Type 0} → ChatEvent C → Bool
is_step (step label) = true
is_step _ = false

abbrev pub is_answer : {C : Type 0} → ChatEvent C → Bool
is_answer (token text) = true
is_answer (reasoning text) = true
is_answer _ = false

module _ {A : Type 0} where
  -- Whether a message may follow: each call of an assistant's message is answered by one message of a tool, in the order of the
  -- calls and before any other message; `waiting` are the ids that are still to be answered.
  abbrev pub paired_after : Role → List String → AgentMessage A → Bool
  paired_after tool waiting m = is_answer_to m.tool_call_id waiting
  paired_after _ waiting m = is_empty waiting

  abbrev pub waiting_after : Role → List String → AgentMessage A → List String
  waiting_after tool waiting m = tail waiting
  waiting_after _ waiting m = ids_of m.tool_calls

  -- The messages up to here leave these ids waiting.
  pub data Leaves : List (AgentMessage A) → List String → Type 0 where
    at_start : Leaves [] []
    then_message :
        (ms : List (AgentMessage A)) (waiting : List String) (m : AgentMessage A)
        → Leaves ms waiting
        → paired_after m.role waiting m ≡ true
        → Leaves (ms ++ m ∷ []) (waiting_after m.role waiting m)

  pub Leaves-plain :
      (ms : List (AgentMessage A)) (history : List (Role × String))
      → Leaves ms []
      → All (λ (role, content). is_tool role ≡ false) history
      → Leaves (ms ++ map (λ (role, content). plain role content) history) []
  Leaves-plain ms [] h spoken = subst (λ l. Leaves l []) (sym (append-nil ms)) h
  Leaves-plain ms ((role, content) ∷ history) h (first, rest) =
      let m : AgentMessage A = plain role content in
      subst (λ l. Leaves l []) (append_assoc ms (m ∷ []) (map (λ (r, c). plain r c) history))
        (Leaves-plain (ms ++ m ∷ []) history (one role first) rest)
    where
      one : (r : Role) → is_tool r ≡ false → Leaves (ms ++ plain r content ∷ []) []
      one system e = then_message ms [] (plain system content) h refl
      one user e = then_message ms [] (plain user content) h refl
      one assistant e = then_message ms [] (plain assistant content) h refl
      one tool e = cc

module _ {A C : Type 0} (model : Model A C) (tools : List (String × Tool A C))
    (tenant_id : String) where
  pub run_calls-Leaves :
      (calls : List (ToolCall A)) (s : State A C)
      → Leaves s.messages (ids_of calls)
      → Leaves (run_calls model tools tenant_id calls s).messages []
  unfolding run_calls
  run_calls-Leaves [] s h = h
  run_calls-Leaves (call ∷ calls) s h =
      let result = invoke tools tenant_id call.name call.arguments in
      run_calls-Leaves calls _ (
        then_message s.messages (call.id ∷ ids_of calls) (answer_to call result) h
          (str_eq_self call.id))

  pub run_calls-calls :
      (calls : List (ToolCall A)) (s : State A C)
      → (run_calls model tools tenant_id calls s).calls ≡ s.calls
  unfolding run_calls
  run_calls-calls [] s = refl
  run_calls-calls (call ∷ calls) s = run_calls-calls calls _

  pub call_steps-is_step :
      (calls : List (ToolCall A))
      → All (λ e. is_step e ≡ true) (call_steps model tools tenant_id calls)
  call_steps-is_step [] = tt
  call_steps-is_step (call ∷ calls) = (refl, call_steps-is_step calls)

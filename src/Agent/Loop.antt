-- ===== src/Agent/Loop.antt =====
-- `run_agent_stream` and `run_agent` of core/doktok_core/agent/loop.py.
pub mod Calls
pub mod Runs
use Prim.Native.String.{◌++◌ as str_append}
use doktok_ng.Prelude.{
  ℕ, zero, suc, ◌+◌, Bool, true, false, ◌||◌, Option, none, some, List, [], ◌∷◌, ◌++◌, map, String,
  str_eq, if◌then◌else◌,
}
use doktok_ng.Agent.Tools.{ToolResult, Tool, invoke, as_message}
use doktok_ng.Agent.Messages.{
  RagAnswer, AgentMessage, ChatChunk, ChatEvent, Model, Reply, Role, Run, State, ToolCall, Turn,
  Usage, added, close_prompt, no_usage, plain, system_prompt, system, user, assistant, tool,
  reasoning_chunk, answer_chunk, step, reasoning, token, sources, metrics, done,
}

abbrev pub request : {A : Type 0} → Turn A → AgentMessage A
request turn = record {
  role = assistant;
  content = turn.text;
  tool_calls = turn.tool_calls;
  tool_call_id = none;
  name = none;
}

module _ {C : Type 0} where
  abbrev pub yielding : {R : Type 0} → List (ChatEvent C) → Run C R → Run C R
  yielding events (later, r) = (events ++ later, r)

  abbrev pub with_sources : List C → List (List C) → List (List C)
  with_sources [] found = found
  with_sources (c ∷ cs) found = found ++ (c ∷ cs) ∷ []

  -- `run_agent`: the answer, the sources and whether it is grounded, of the events
  abbrev answer_of : List (ChatEvent C) → String
  answer_of [] = ""
  answer_of (token text ∷ events) = str_append text (answer_of events)
  answer_of (e ∷ events) = answer_of events

  abbrev cited_by : List C → List (ChatEvent C) → List C
  cited_by cs [] = cs
  cited_by cs (sources found ∷ events) = cited_by found events
  cited_by cs (e ∷ events) = cited_by cs events

  abbrev measured : Option Usage → List (ChatEvent C) → Option Usage
  measured u [] = u
  measured u (metrics usage ∷ events) = measured (some usage) events
  measured u (e ∷ events) = measured u events

  abbrev is_grounded : Bool → List (ChatEvent C) → Bool
  is_grounded g [] = g
  is_grounded g (done value ∷ events) = is_grounded value events
  is_grounded g (e ∷ events) = is_grounded g events

module _ {A C : Type 0} where
  abbrev pub answer_to : ToolCall A → ToolResult C → AgentMessage A
  answer_to call result = record {
    role = tool;
    content = as_message result;
    tool_calls = [];
    tool_call_id = some call.id;
    name = some call.name;
  }

  -- _accumulate, after a call
  abbrev pub called : Option Usage → State A C → State A C
  called usage s = record s { usage = added s.usage usage; calls = s.calls + 1 }

  module _ (model : Model A C) (tools : List (String × Tool A C)) (tenant_id : String) where
    -- for call in turn.tool_calls
    pub run_calls : List (ToolCall A) → State A C → State A C
    run_calls [] s = s
    run_calls (call ∷ calls) s =
        let result = invoke tools tenant_id call.name call.arguments in
        run_calls calls (record s {
          messages = s.messages ++ answer_to call result ∷ [];
          tool_sources = with_sources result.citations s.tool_sources;
        })

    abbrev pub call_steps : List (ToolCall A) → List (ChatEvent C)
    call_steps calls =
        map (λ (call : ToolCall A). step (model.tool_step call.name call.arguments)) calls

    -- The calls of a turn that is not empty, and the later rounds.
    pub after_turn :
        Turn A
        → List (ToolCall A)
        → (State A C → Run C (State A C × String))
        → State A C
        → Run C (State A C × String)
    unfolding run_calls
    after_turn turn [] later s = ([], some (s, model.strip turn.text))
    after_turn turn (call ∷ calls) later s =
        yielding (call_steps (call ∷ calls)) (
          later
            (run_calls (call ∷ calls) (record s { messages = s.messages ++ request turn ∷ [] })))

    pub after_chat :
        Option (Turn A)
        → (State A C → Run C (State A C × String))
        → State A C
        → Run C (State A C × String)
    unfolding after_turn
    after_chat none later s = ([], none)
    after_chat (some turn) later s = after_turn turn turn.tool_calls later (called turn.usage s)

    -- for _ in range(max_iterations)
    pub rounds : ℕ → State A C → Run C (State A C × String)
    unfolding after_chat
    rounds zero s =
        ([], some (record s { messages = s.messages ++ plain user close_prompt ∷ [] }, ""))
    rounds (suc n) s =
        after_chat (model.chat_with_tools s.calls s.messages true) (λ s'. rounds n s') s

    -- Without tools; `_force_blocking_answer`
    abbrev pub forced : Option (Turn A) → State A C → Run C (State A C × String)
    forced none s = ([], none)
    forced (some turn) s =
        let answer = model.strip turn.text in
        ((token answer) ∷ [], some (called turn.usage s, answer))

    -- answer = _blocking_final or _force_blocking_answer(...), and its token
    pub fall_back : String → State A C → Run C (State A C × String)
    fall_back final s =
        if str_eq final ""
        then forced (model.chat_with_tools s.calls s.messages false) s
        else ((token final) ∷ [], some (s, final))

    abbrev pub chunk_events : List ChatChunk → List (ChatEvent C)
    chunk_events [] = []
    chunk_events (reasoning_chunk text ∷ chunks) = reasoning text ∷ chunk_events chunks
    chunk_events (answer_chunk text ∷ chunks) = token text ∷ chunk_events chunks

    abbrev pub joined : List ChatChunk → String
    joined [] = ""
    joined (reasoning_chunk text ∷ chunks) = joined chunks
    joined (answer_chunk text ∷ chunks) = str_append text (joined chunks)

    -- The reply that was streamed, and what follows it.
    pub after_reply : String → Reply → State A C → Run C (State A C × String)
    unfolding fall_back
    after_reply final reply s =
        let answer = model.strip (joined reply.chunks) in
        let s' : State A C = record s { usage = added s.usage reply.usage } in
        yielding (chunk_events reply.chunks) (
          if reply.ended
          then if str_eq answer "" then fall_back final s' else ([], some (s', answer))
          else fall_back final s)

    pub compose :
        Option (List (AgentMessage A) → Reply) → String → State A C → Run C (State A C × String)
    unfolding after_reply
    compose none final s = fall_back final s
    compose (some stream) final s = after_reply final (stream s.messages) s

    -- The events that close a run.
    abbrev pub closing : State A C → String → List (ChatEvent C)
    closing s answer =
        sources (model.merge_evidence s.tool_sources)
        ∷ metrics s.usage
        ∷ done (model.is_cited answer)
        ∷ []

    abbrev pub closed : Run C (State A C × String) → Run C (State A C × String)
    closed (events, none) = (events, none)
    closed (events, some (s, answer)) = (events ++ closing s answer, some (s, answer))

    abbrev pub composed : Run C (State A C × String) → Run C (State A C × String)
    composed (events, none) = (events, none)
    composed (events, some (s, final)) =
        yielding (events ++ step "Composing the answer" ∷ [])
          (closed (compose model.stream_reply final s))

    abbrev pub start : List (Role × String) → String → State A C
    start history question = record {
      messages =
          (plain system system_prompt ∷ map (λ (role, content). plain role content) history)
          ++ plain user question ∷ [];
      tool_sources = [];
      usage = no_usage;
      calls = 0;
    }

    -- The events, and the messages, the calls and the answer at the end.
    pub run_agent_stream : List (Role × String) → String → ℕ → Run C (State A C × String)
    unfolding rounds compose
    run_agent_stream history question max_iterations =
        yielding (step "Understanding your question" ∷ [])
          (composed (rounds max_iterations (start history question)))

    abbrev collected : List (ChatEvent C) → RagAnswer C
    collected events =
        let answer = answer_of events in
        record {
          answer =
              if str_eq answer ""
              then "I could not find enough evidence to answer that."
              else answer;
          citations = cited_by [] events;
          grounded = is_grounded false events;
          metrics = measured none events;
        }

    abbrev drained : Run C (State A C × String) → Option (RagAnswer C)
    drained (events, none) = none
    drained (events, some (s, answer)) = some (collected events)

    -- None where the model raised.
    pub run_agent : List (Role × String) → String → ℕ → Option (RagAnswer C)
    unfolding run_agent_stream
    run_agent history question max_iterations =
        drained (run_agent_stream history question max_iterations)

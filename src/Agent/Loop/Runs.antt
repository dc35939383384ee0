-- ===== src/Agent/Loop/Runs.antt =====
-- A whole run of the loop: core/doktok_core/agent/loop.py.
use doktok_ng.Prelude.{
  ℕ, zero, suc, ◌+◌, ◌≤◌, ◌≡◌, refl, sym, subst, ◌∙◌, inl, inr, Bool, true, false, Bool-cases,
  Option, none, some, List, [], ◌∷◌, ◌++◌, All, All-append, String, str_eq, arith,
}
use doktok_ng.Agent.Tools.{Tool}
use doktok_ng.Agent.Messages.{
  Role, system, user, ToolCall, AgentMessage, Turn, ChatChunk, reasoning_chunk, answer_chunk, Reply,
  ChatEvent, step, Model, State, Run, plain, close_prompt, system_prompt, added,
}
use doktok_ng.Agent.Loop.{
  request, yielding, called, run_calls, call_steps, after_turn, after_chat, rounds, fall_back,
  chunk_events, joined, after_reply, compose, closing, closed, composed, start, run_agent_stream,
}
use doktok_ng.Agent.Loop.Calls.{
  ids_of, is_tool, is_step, is_answer, Leaves, at_start, then_message, Leaves-plain,
  run_calls-Leaves, run_calls-calls, call_steps-is_step,
}

module _ {A C : Type 0} (model : Model A C) (tools : List (String × Tool A C)) (tenant_id : String)
    (answers : (k : ℕ) (ms : List (AgentMessage A)) (b : Bool)
      → (turn : Turn A) × (model.chat_with_tools k ms b ≡ some turn)) where
  -- The rounds have come to an end.
  record IsReady (limit : ℕ) (r : Run C (State A C × String)) : Type 0 where
    state : State A C
    final : String
    result : r.1 ≡ some (state, final)
    steps : All (λ e. is_step e ≡ true) r.0
    bound : state.calls ≤ limit
    whole : Leaves state.messages []

  IsReady-yielding :
      (limit : ℕ) (events : List (ChatEvent C)) (r : Run C (State A C × String))
      → All (λ e. is_step e ≡ true) events
      → IsReady limit r
      → IsReady limit (yielding events r)
  IsReady-yielding limit events r stepped h = record {
    state = h.state;
    final = h.final;
    result = h.result;
    steps = All-append (λ e. is_step e ≡ true) events r.0 stepped h.steps;
    bound = h.bound;
    whole = h.whole;
  }

  rounds-IsReady :
      (n : ℕ) (s : State A C)
      → Leaves s.messages []
      → IsReady (s.calls + n) (rounds model tools tenant_id n s)
  unfolding rounds after_chat after_turn
  rounds-IsReady zero s h = record {
    state = _;
    final = _;
    result = refl;
    steps = tt;
    bound = omega arith;
    whole = then_message s.messages [] (plain user close_prompt) h refl;
  }
  rounds-IsReady (suc n) s h =
      let (turn, e) = answers s.calls s.messages true in
      rw e (go (λ s' h'. rounds-IsReady n s' h') turn turn.tool_calls refl)
    where
      go :
          ((s' : State A C)
            → Leaves s'.messages []
            → IsReady (s'.calls + n) (rounds model tools tenant_id n s'))
          → (turn : Turn A) (calls : List (ToolCall A)) → turn.tool_calls ≡ calls
          → IsReady (s.calls + suc n) (
              after_turn model tools tenant_id turn calls
                (λ s'. rounds model tools tenant_id n s')
                (called turn.usage s))
      go ih turn [] e = record {
        state = called turn.usage s;
        final = _;
        result = refl;
        steps = tt;
        bound = omega arith;
        whole = h;
      }
      go ih turn (call ∷ calls) e =
          let s1 : State A C = record (called turn.usage s) {
            messages = s.messages ++ request turn ∷ [];
          } in
          let asked : Leaves s1.messages (ids_of (call ∷ calls)) =
            subst (λ cs. Leaves s1.messages (ids_of cs)) e
              (then_message s.messages [] (request turn) h refl) in
          let s2 = run_calls model tools tenant_id (call ∷ calls) s1 in
          let kept = run_calls-calls model tools tenant_id (call ∷ calls) s1 in
          let later = ih s2 (run_calls-Leaves model tools tenant_id (call ∷ calls) s1 asked) in
          let limit : s2.calls + n ≡ s.calls + suc n = omega (arith, kept) in
          IsReady-yielding (s.calls + suc n) (call_steps model tools tenant_id (call ∷ calls)) _
            (call_steps-is_step model tools tenant_id (call ∷ calls))
            (subst (λ k. IsReady k (rounds model tools tenant_id n s2)) limit later)

  -- The answer has come to an end; at most one more call was made.
  record IsAnswered (s : State A C) (r : Run C (State A C × String)) : Type 0 where
    state : State A C
    answer : String
    result : r.1 ≡ some (state, answer)
    events : All (λ e. is_answer e ≡ true) r.0
    bound : state.calls ≤ s.calls + 1
    same : state.messages ≡ s.messages

  fall_back-IsAnswered :
      (final : String) (s : State A C) → IsAnswered s (fall_back model tools tenant_id final s)
  unfolding fall_back
  fall_back-IsAnswered final s = elim (Bool-cases (str_eq final "")) [
    | inl e ↦
        let (turn, answered) = answers s.calls s.messages false in
        rw e (
          rw answered (record {
            state = called turn.usage s;
            answer = _;
            result = refl;
            events = (refl, tt);
            bound = omega arith;
            same = refl;
          }))
    | inr e ↦ rw e (record {
      state = s;
      answer = final;
      result = refl;
      events = (refl, tt);
      bound = omega arith;
      same = refl;
    })
  ]

  chunk_events-is_answer :
      (chunks : List ChatChunk)
      → All (λ e. is_answer e ≡ true) (chunk_events model tools tenant_id chunks)
  chunk_events-is_answer [] = tt
  chunk_events-is_answer (reasoning_chunk text ∷ chunks) = (refl, chunk_events-is_answer chunks)
  chunk_events-is_answer (answer_chunk text ∷ chunks) = (refl, chunk_events-is_answer chunks)

  after_chunks :
      (s s' : State A C) (chunks : List ChatChunk) (r : Run C (State A C × String))
      → s'.calls ≡ s.calls
      → s'.messages ≡ s.messages
      → IsAnswered s' r
      → IsAnswered s (yielding (chunk_events model tools tenant_id chunks) r)
  after_chunks s s' chunks r calls messages h = record {
    state = h.state;
    answer = h.answer;
    result = h.result;
    events =
        All-append (λ e. is_answer e ≡ true) (chunk_events model tools tenant_id chunks) r.0
          (chunk_events-is_answer chunks) h.events;
    bound = omega (arith, h.bound, calls);
    same = h.same ∙ messages;
  }

  after_reply-IsAnswered :
      (final : String) (reply : Reply) (s : State A C)
      → IsAnswered s (after_reply model tools tenant_id final reply s)
  unfolding after_reply
  after_reply-IsAnswered final reply s =
      let text = model.strip (joined model tools tenant_id reply.chunks) in
      let s' : State A C = record s { usage = added s.usage reply.usage } in
      elim (Bool-cases reply.ended) [
        | inl e ↦ simp e (elim (Bool-cases (str_eq text "")) [
          | inl f ↦
              simp f (after_chunks s s' reply.chunks _ refl refl (fall_back-IsAnswered final s'))
          | inr f ↦ simp f (
              after_chunks s s' reply.chunks _ refl refl (record {
                state = s';
                answer = text;
                result = refl;
                events = tt;
                bound = omega arith;
                same = refl;
              }))
        ])
        | inr e ↦ simp e (after_chunks s s reply.chunks _ refl refl (fall_back-IsAnswered final s))
      ]

  compose-IsAnswered :
      (stream : Option (List (AgentMessage A) → Reply)) (final : String) (s : State A C)
      → IsAnswered s (compose model tools tenant_id stream final s)
  unfolding compose
  compose-IsAnswered none final s = fall_back-IsAnswered final s
  compose-IsAnswered (some stream) final s = after_reply-IsAnswered final (stream s.messages) s

  -- The shape of a run: the steps, the pieces of the answer, and what closes it.
  pub record IsWhole (max_iterations : ℕ) (r : Run C (State A C × String)) : Type 0 where
    pub steps : List (ChatEvent C)
    pub pieces : List (ChatEvent C)
    pub state : State A C
    pub answer : String
    pub ended : r.1 ≡ some (state, answer)
    pub events :
        r.0
        ≡ step "Understanding your question" ∷ (steps ++ step "Composing the answer" ∷ [])
          ++ (pieces ++ closing model tools tenant_id state answer)
    pub are_steps : All (λ e. is_step e ≡ true) steps
    pub are_pieces : All (λ e. is_answer e ≡ true) pieces
    pub bound : state.calls ≤ max_iterations + 1
    pub whole : Leaves state.messages []

  -- The rounds and the answer make a run.
  closed-IsWhole :
      (max_iterations : ℕ) (steps : List (ChatEvent C)) (s : State A C)
      (r : Run C (State A C × String))
      → All (λ e. is_step e ≡ true) steps
      → s.calls ≤ max_iterations
      → Leaves s.messages []
      → IsAnswered s r
      → IsWhole max_iterations (
          yielding
            (step "Understanding your question" ∷ [])
            (yielding (steps ++ step "Composing the answer" ∷ []) (closed model tools tenant_id r)))
  closed-IsWhole max_iterations steps s (pieces, none) stepped bound whole answered =
      let h : ◌≡◌ {A = Option (State A C × String)} (none)
          (some (answered.state, answered.answer)) =
        answered.result in
      absurd (cc)
  closed-IsWhole max_iterations steps s (pieces, some (s', answer)) stepped bound whole answered =
      let h : ◌≡◌ {A = Option (State A C × String)} (some (s', answer))
          (some (answered.state, answered.answer)) =
        answered.result in
      let same : s' ≡ answered.state = cc in
      record {
        steps = steps;
        pieces = pieces;
        state = s';
        answer = answer;
        ended = refl;
        events = refl;
        are_steps = stepped;
        are_pieces = answered.events;
        bound =
            subst (λ (x : State A C). x.calls ≤ max_iterations + 1) (sym same)
              (omega (arith, answered.bound, bound));
        whole =
            subst (λ (x : State A C). Leaves x.messages []) (sym same)
              (subst (λ ms. Leaves ms []) (sym answered.same) whole);
      }

  composed-IsWhole :
      (max_iterations : ℕ) (r : Run C (State A C × String))
      → IsReady max_iterations r
      → IsWhole max_iterations
          (yielding (step "Understanding your question" ∷ []) (composed model tools tenant_id r))
  composed-IsWhole max_iterations (steps, none) ready =
      let h : ◌≡◌ {A = Option (State A C × String)} (none) (some (ready.state, ready.final)) =
        ready.result in
      absurd (cc)
  composed-IsWhole max_iterations (steps, some (s, final)) ready =
      let h : ◌≡◌ {A = Option (State A C × String)} (some (s, final))
          (some (ready.state, ready.final)) =
        ready.result in
      let same : s ≡ ready.state = cc in
      closed-IsWhole max_iterations steps s
        (compose model tools tenant_id model.stream_reply final s) ready.steps
        (subst (λ (x : State A C). x.calls ≤ max_iterations) (sym same) ready.bound)
        (subst (λ (x : State A C). Leaves x.messages []) (sym same) ready.whole)
        (compose-IsAnswered model.stream_reply final s)

  -- If the model answers its calls, and the history has no messages of tools, a run of the agent
  -- ends with an answer: its events are a step, steps for the calls of tools, the step of the answer,
  -- the pieces of the answer, and then the sources, the metrics and the end, once each. At its end the
  -- run has called the tool-calling model at most once more than the bound on the rounds, and in its
  -- messages each call of a tool is answered, in order, before any other message.
  pub run_agent_stream-IsWhole :
      (history : List (Role × String)) (question : String) (max_iterations : ℕ)
      → All (λ (role, content). is_tool role ≡ false) history
      → IsWhole max_iterations
          (run_agent_stream model tools tenant_id history question max_iterations)
  unfolding run_agent_stream
  run_agent_stream-IsWhole history question max_iterations spoken =
      let limit : 0 + max_iterations ≡ max_iterations = omega arith in
      let first = then_message [] [] (plain system system_prompt) at_start refl in
      let said = Leaves-plain (plain system system_prompt ∷ []) history first spoken in
      let asked = then_message _ [] (plain user question) said refl in
      let s = start model tools tenant_id history question in
      let ready =
        subst (λ k. IsReady k (rounds model tools tenant_id max_iterations s)) limit
          (rounds-IsReady max_iterations s asked) in
      composed-IsWhole max_iterations (rounds model tools tenant_id max_iterations s) ready

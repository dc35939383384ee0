-- ===== src/Agent/Examples.antt =====
-- The claim about the agent at a concrete input.
use doktok_ng.Prelude.{ℕ, zero, suc, refl, true, false, none, some, [], ◌∷◌, String}
use doktok_ng.Agent.Tools.{Tool, fine}
use doktok_ng.Agent.Messages.{user, assistant, Turn, Model, reasoning_chunk, answer_chunk}
use doktok_ng.Agent.Loop.{run_agent_stream}
use doktok_ng.Agent.Loop.Runs.{IsWhole, run_agent_stream-IsWhole}

-- A tool that takes a text and gives the passage that it is.
abbrev search : Tool String String
search = record {
  Args = String;
  name = "retrieve_passages";
  validate = λ raw. fine raw;
  run = λ t query.
      fine
        (record { tool = "retrieve_passages"; summary = query; citations = query ∷ []; ok = true });
}

abbrev asking : Turn String
asking = record {
  text = "";
  tool_calls =
      record { id = "c1"; name = "retrieve_passages"; arguments = "rent" }
      ∷ record { id = "c2"; name = "unknown"; arguments = "rent" }
      ∷ [];
  usage = none;
}

abbrev answering : Turn String
answering = record { text = "It is 900 EUR [1]."; tool_calls = []; usage = none }

abbrev turn_at : ℕ → Turn String
turn_at zero = asking
turn_at (suc n) = answering

abbrev scripted : Model String String
scripted = record {
  chat_with_tools = λ k messages with_tools. some (turn_at k);
  stream_reply = some (λ messages. record {
    chunks = reasoning_chunk "adding" ∷ answer_chunk "It is" ∷ [];
    ended = false;
    usage = none;
  });
  strip = λ text. text;
  merge_evidence = λ found. [];
  is_cited = λ text. true;
  tool_step = λ name raw. name;
}

run_agent_stream-IsWhole_example :
    IsWhole scripted
      (("retrieve_passages", search) ∷ [])
      "acme"
      (λ k ms b. (turn_at k, refl))
      6
      (run_agent_stream scripted
        (("retrieve_passages", search) ∷ [])
        "acme"
        ((user, "hello") ∷ (assistant, "hi") ∷ [])
        "What is the rent?"
        6)
run_agent_stream-IsWhole_example =
    run_agent_stream-IsWhole scripted (("retrieve_passages", search) ∷ []) "acme"
      (λ k ms b. (turn_at k, refl)) ((user, "hello") ∷ (assistant, "hi") ∷ []) "What is the rent?" 6
      (refl, (refl, tt))

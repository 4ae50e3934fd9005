-- ===== src/Tests/StreamTests.antt =====
-- The waiting and the streaming handlers of internal/api/server.go at concrete rounds.
use splai.Base.{
  ℕ, ◌+◌, ◌*◌, ◌≤◌, String, ◌≡◌, refl, true, false, Option, none, some, List, [], ◌∷◌, arith,
}
use splai.State.{Time, second, completed}
use splai.Scheduler.Engine.{Engine}
use splai.Auth.{Request, authorize}
use splai.Api.Messages.{write_error}
use splai.Api.Server.{Server}
use splai.Api.Artifacts.{Artifact}
use splai.Api.Compat.{ChatRequest, handle_openai_chat_completions}
use splai.Api.Compat.Waiting.{IsAnswered, handle_openai_chat_completions-IsAnswered}
use splai.Api.Compat.Refusals.{handle_openai_chat_completions-hides}
use splai.Tests.Samples.{engine, start, digest, job, store}
use splai.Tests.ApiTests.{server}

abbrev no_file : String → Option Artifact
no_file path = none

-- the server does not change, and is looked at every 200 milliseconds
abbrev look : ℕ → Time × Server
look n = (start + n * 200_000_000, server)

abbrev ask : String → Request
ask token = record {
  method = "POST";
  url_path = "/v1/chat/completions";
  query = [];
  header = ("X-Splai-Token", token) ∷ [];
  remote_addr = "10.0.0.1";
}

abbrev question : ChatRequest
question = record {
  model = "";
  messages = record { role = ""; content = "hello" } ∷ [];
  stream = false;
}

handle_openai_chat_completions-IsAnswered_example :
    IsAnswered no_file digest start 5 look start
      (λ n. omega arith)
      (omega arith)
      (ask "user")
      server
      (omega arith)
      (handle_openai_chat_completions no_file digest start 6 look start
        (ask "user")
        (some question)
        server)
handle_openai_chat_completions-IsAnswered_example =
    handle_openai_chat_completions-IsAnswered no_file digest start 5 look start (λ n. omega arith)
      (omega arith) (ask "user") server (omega arith) (some question)

handle_openai_chat_completions-hides_example :
    handle_openai_chat_completions no_file digest start 6 look start (ask "") (some question) server
    ≡ some (server, write_error 500 (authorize server.auth (ask "") []).2)
unfolding authorize splai.Base.is_empty splai.Api.Compat.build_chat_prompt splai.Base.trim_space
    splai.Auth.bearer_token splai.Base.has_prefix splai.Base.to_lower splai.Base.lookup
handle_openai_chat_completions-hides_example =
    handle_openai_chat_completions-hides no_file digest start 6 look start (ask "") question server
      refl refl refl refl

-- the job goes on, and has completed at the second look
abbrev done_engine : Engine
done_engine = record engine {
  store = record store {
    jobs = ("job-1", record job { status = completed; updated_at = start + second }) ∷ [];
  };
}

abbrev as_number : Time → String
as_number t = "t"

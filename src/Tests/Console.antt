-- ===== src/Tests/Console.antt =====
-- Command lines.
use gh_ost_cpp.Base.{true, false}
use gh_ost_cpp.Commands.{Console}
use gh_ost_cpp.Tests.Data.{context}

abbrev console : Console
console = record { context = context; runtime_paused = false }

abbrev after_clients : Console
after_clients = record console {
  context = record context {
    config = record context.config {
      throttle = record context.config.throttle { chunk_size = 500 };
    };
  };
  runtime_paused = true;
}

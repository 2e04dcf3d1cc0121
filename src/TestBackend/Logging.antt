-- ===== src/TestBackend/Logging.antt =====
-- TestBackend/utils.go: `loggingResponseWriter`, which no handler uses. The writer that it wraps is the
-- connection to a client.
use load_balancer_comparison.Base.{ℕ, ◌==◌, Option, if◌then◌else◌}
use load_balancer_comparison.Base.Int.{ℤ, pos, add64}
use load_balancer_comparison.Balancer.{first_status}

-- `sent` is the status that the client has been sent.
pub record LoggingResponseWriter : Type 0 where
  pub sent : Option ℕ
  pub status : ℕ
  pub size : ℤ

unfoldable pub new_logging_response_writer : Option ℕ → LoggingResponseWriter
new_logging_response_writer sent = record { sent = sent; status = 0; size = pos 0 }

unfoldable pub write_header : ℕ → LoggingResponseWriter → LoggingResponseWriter
write_header code w = record w { status = code; sent = first_status w.sent code }

-- `n` is the number of bytes that the connection takes; its first write sends 200.
unfoldable pub write : ℕ → LoggingResponseWriter → LoggingResponseWriter
write n w = record w {
  status = if w.status == 0 then 200 else w.status;
  sent = first_status w.sent 200;
  size = add64 w.size (pos n);
}

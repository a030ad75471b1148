-- ===== src/Web/Logging/Handlers/Examples.antt =====
-- A handler that counts the requests and sends back their bodies.
use goddd.Web.Logging.Written.{concat}
use goddd.Web.Logging.{new_buffer_writer, write_all}
use goddd.Common.Text.{hex, codes}
use goddd.Common.Int.{pos}
use goddd.Web.Logging.Handlers.Transparent.{answered_as_without, SameAnswer}
use goddd.Web.Logging.Handlers.{
  Outcome, logger_with_use_time, body_line, pass_on, pos, logger, Incoming, logger_with_body,
  Handler,
}
use goddd.Common.{◌≡◌, [], suc, ◌∷◌, some, none, true, refl, ℕ}

abbrev echo : Handler ℕ
echo i s = (suc s, record { status = 200; writes = i.raw ∷ codes "!" ∷ []; response_err = none })

abbrev post : Incoming
post = record {
  request = record { method = codes "POST"; path = codes "/a" };
  raw_query = [];
  client_ip = codes "::1";
  content_length = pos 5;
  raw = codes "hello";
  readable = true;
  trace_id = [];
}

answered_as_without_example :
    SameAnswer
      (logger some [] (codes "g") 7 echo post 3)
      (pass_on echo (record post { trace_id = hex (codes "g") }) 3)
    × SameAnswer (logger_with_use_time 5 [] 7 echo post 3) (pass_on echo post 3)
    × ((out : ℕ × Outcome) × (logger_with_body (pos 2) [] echo post 3 ≡ some out)
        × SameAnswer out (pass_on echo post 3))
answered_as_without_example = answered_as_without some [] (codes "g") 7 5 2 echo post 3 refl

logs_start_of_bodies :
    logger_with_body (pos 2) [] echo post 3
    ≡ some (
      4,
      record {
        status = 200;
        sent = codes "hello!";
        line = some (body_line (codes "he") (codes "he"));
      },
    )
unfolding logger_with_body write_all new_buffer_writer
logs_start_of_bodies = refl

-- With no limit a request with a body is not logged.
logs_no_body :
    logger_with_body (pos 0) [] echo post 3
    ≡ some (4, record { status = 200; sent = codes "hello!"; line = none })
unfolding logger_with_body concat
logs_no_body = refl

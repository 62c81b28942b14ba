-- ===== src/EchoService/Tests.antt =====
-- The echo service of week4 on concrete reads.
mod World
use mathlib.Core.Quot
use posix_network_programmin.Prelude.{◌≡◌, refl, List, [], ◌∷◌, ◌++◌, none, some, arith, codes}
use posix_network_programmin.Cstring.{overwrite, fresh}
use posix_network_programmin.Posix.{
  Answer, ReadResult, returned, blocked, got, failed, write, print, written, stdout_fileno,
  exit_success,
}
use posix_network_programmin.Posix.Accept.{Forked, is_transient, in_child, in_parent}
use posix_network_programmin.EchoService.{Caller, caller_loop, Exchange, exchange, exchanges}
use posix_network_programmin.Posix.Stream.{stream_of}
use posix_network_programmin.EchoService.Stream.{caller_loop-stream}
use posix_network_programmin.EchoService.Whole.{exchanges-caller_loop}
use posix_network_programmin.EchoService.Server.{caller_loop-chunks}
use posix_network_programmin.EchoService.Client.{exchange-rest}

abbrev caller : Answer → Forked → List ReadResult → Caller
caller accepted forked reads = record {
  accepted = accepted;
  forked = forked;
  pid = 300;
  reads = reads;
}

abbrev before : List Caller
before =
    caller (record { value = some 7; errno = 0 }) (in_parent 301) []
    ∷ caller (record { value = none; errno = 113 }) in_child []
    ∷ []

abbrev answered : Exchange
answered = record {
  line = some (codes "hello\n");
  sent = record { value = some 6; errno = 0 };
  reply = got (codes "HE");
}

exchange-rest_example :
    exchange 3 answered
    ≡ (write 3 (codes "hello\n") ∷ print stdout_fileno (codes "HEllo\n\n") ∷ [], returned tt)
exchange-rest_example = exchange-rest 3 answered (codes "hello\n") (codes "HE") (record {
  line_read = refl;
  line_text = omega arith;
  fits = omega arith;
  sent = (6, refl);
  answer = refl;
  reply_text = omega arith;
  shorter = omega arith;
})

abbrev served : Caller
served =
    caller (record { value = some 9; errno = 0 }) in_child
      (got (codes "hello\n") ∷ got (codes "bye\n") ∷ got [] ∷ [])

abbrev sends : List Exchange
sends =
    record {
      line = some (codes "hello\n");
      sent = record { value = some 6; errno = 0 };
      reply = got (codes "hello\n");
    }
    ∷ record {
      line = some (codes "bye\n");
      sent = record { value = some 4; errno = 0 };
      reply = got (codes "bye\n");
    }
    ∷ []

exchanges-caller_loop_example : exchanges 3 sends ≡ (
  write 3 (codes "hello\n")
      ∷ print stdout_fileno (codes "hello\n\n")
      ∷ write 3 (codes "bye\n")
      ∷ print stdout_fileno (codes "bye\n\n")
      ∷ [],
  blocked,
)
unfolding caller_loop written is_transient overwrite fresh
exchanges-caller_loop_example =
    exchanges-caller_loop 4 9 3 before served [] sends (codes "hello\n" ∷ codes "bye\n" ∷ []) []
      (tt, (refl, tt)) refl refl refl
      (
        record {
          line_read = refl;
          line_text = omega arith;
          some_char = omega arith;
          fits = omega arith;
          sent = (6, refl);
        },
        (
          record {
            line_read = refl;
            line_text = omega arith;
            some_char = omega arith;
            fits = omega arith;
            sent = (4, refl);
          },
          tt,
        ),
      )
      refl

abbrev echoing : Caller
echoing =
    caller (record { value = some 9; errno = 0 }) in_child
      (got (codes "he") ∷ got (codes "llo\nb") ∷ got (codes "ye\n") ∷ got [] ∷ [])

-- Two writes, which arrive in three pieces.
caller_loop-stream_example :
    (stream_of (written 9 (caller_loop 4 (before ++ echoing ∷ [])).0)
      ≡ stream_of (codes "hello\n" ∷ codes "bye\n" ∷ []))
    × ((caller_loop 4 (before ++ echoing ∷ [])).1 ≡ returned exit_success)
unfolding is_transient
caller_loop-stream_example =
    caller_loop-stream 4 9 before echoing [] (codes "hello\n" ∷ codes "bye\n" ∷ [])
      (codes "he" ∷ codes "llo\nb" ∷ codes "ye\n" ∷ []) (tt, (refl, tt)) refl refl refl
      (omega arith) (Quot.sound refl)

-- ===== src/Wayland/Connection/Tests.antt =====
-- A connection at concrete inputs, and the theorems on it at inputs that meet their hypotheses.
use mathlib.Core.List.{flatten}
use k1os.Prelude.{ℕ, refl, Bool, true, List, [], ◌∷◌, arith, inr, inl}
use k1os.Wayland.Ring.{Ring, ring_size, ring_consume, ring_copy, ring_get_iov}
use k1os.Wayland.Connection.{Connection, close_fds}
use k1os.Wayland.Connection.Send.{
  Sent, sent, not_sent, connection_flush, offered, control_fds, connection_write,
}
use k1os.Wayland.IdMap.{eintr}
use k1os.Wayland.Connection.Send.Closing.{IsFds, Closed, close_fds_lem}
use k1os.Wayland.Connection.Send.Flushing.{IsSender, Obeys, Kept, flush-Kept}
use k1os.Wayland.Connection.Send.Completion.{Completed, flush_completes, sends}
use k1os.Wayland.Word.{word_bytes}
use k1os.Wayland.Connection.Send.{connection_put_fd}
use k1os.Wayland.Connection.Send.Descriptors.{
  FdAppended, FlushedFirst, connection_put_fd-FdAppended,
}
use k1os.Wayland.Connection.Send.Queue.{Appended, connection_write-Appended}
use k1os.Wayland.IdMap.{eagain}
use k1os.Wayland.Connection.Receive.{Answer, received, not_received, rights}
use k1os.Wayland.Connection.Receive.Gathering.{Obeys as Receive_Obeys}

abbrev plenty : ℕ → Bool
plenty n = true

-- Eight bytes, the four in use going round the end.
abbrev out : Ring
out = record {
  buf = 3 ∷ 4 ∷ 9 ∷ 9 ∷ 9 ∷ 9 ∷ 1 ∷ 2 ∷ [];
  head = 10;
  tail = 6;
  size_bits = 3;
  max_size_bits = 12;
}

-- The descriptors 5 and 6, in a block of two.
abbrev fds_out : Ring
fds_out = record {
  buf = 6 ∷ 0 ∷ 0 ∷ 0 ∷ 5 ∷ 0 ∷ 0 ∷ 0 ∷ [];
  head = 12;
  tail = 4;
  size_bits = 3;
  max_size_bits = 12;
}

abbrev connection : Connection
connection = record {
  input = out;
  out = out;
  fds_in = fds_out;
  fds_out = fds_out;
  socket = 3;
  want_flush = true;
}

fds_out-IsFds : IsFds fds_out
unfolding ring_size
fds_out-IsFds = omega arith

connection-IsSender : IsSender connection
unfolding ring_size
connection-IsSender = omega arith

close_fds_lem_example : Closed fds_out 1 (close_fds fds_out 1)
close_fds_lem_example = close_fds_lem fds_out 1 fds_out-IsFds

-- Three bytes are sent, a call is interrupted, and the last byte is sent.
abbrev answers : List Sent
answers = sent 3 ∷ not_sent eintr ∷ sent 1 ∷ sent 1 ∷ sent 1 ∷ []

answers-Obeys : Obeys answers connection
unfolding ring_size offered control_fds ring_consume close_fds ring_copy flatten ring_get_iov
answers-Obeys = inr (omega arith, omega arith, inr (omega arith, omega arith, inl refl))

flush-Kept_example : Kept connection (connection_flush connection answers)
flush-Kept_example = flush-Kept connection answers connection-IsSender answers-Obeys

flush_completes_example : Completed connection (connection_flush connection answers)
unfolding ring_size sends
flush_completes_example =
    flush_completes connection answers connection-IsSender answers-Obeys refl (omega arith)
      (refl, tt) (omega arith)

connection_write-Appended_example :
    Appended connection (7 ∷ 8 ∷ []) (connection_write plenty connection (7 ∷ 8 ∷ []) answers)
unfolding ring_size
connection_write-Appended_example =
    connection_write-Appended plenty (7 ∷ 8 ∷ []) connection answers connection-IsSender
      (omega arith) answers-Obeys

-- Nothing is in the queues: a call gives two bytes and two descriptors, and the next one would block.
abbrev quiet : Connection
quiet = record connection { input = record out { head = 6 }; fds_in = record fds_out { head = 4 } }

abbrev messages : List Answer
messages =
    received (7 ∷ 8 ∷ []) (rights (5 ∷ 0 ∷ 0 ∷ 0 ∷ 6 ∷ 0 ∷ 0 ∷ 0 ∷ []) ∷ [])
    ∷ not_received eagain
    ∷ []

connection_put_fd-FdAppended_example :
    FdAppended connection (word_bytes 9) (connection_put_fd plenty connection 9 answers)
    × FlushedFirst connection answers (connection_put_fd plenty connection 9 answers)
unfolding ring_size
connection_put_fd-FdAppended_example =
    connection_put_fd-FdAppended plenty connection 9 answers connection-IsSender (omega arith)
      answers-Obeys

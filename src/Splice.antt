-- ===== src/Splice.antt =====
-- bev_splice.c: two connections joined, each of which gets what the other reads.
pub mod Relay
mod Tests
use newnode.Prelude.{
  ℕ, ◌+◌, ◌≡◌, Bool, true, false, not, ◌||◌, List, [], ◌∷◌, ◌++◌, ◌==◌, if◌then◌else◌, length,
}

-- A bufferevent: its buffers, what is enabled, and what was done to its socket. `received` and `sent`
-- are the bytes of the socket from the begin on. `closing` is set by bufferevent_setcb with
-- bev_splice_free_write_cb.
pub record Bufferevent : Type 0 where
  pub input : List ℕ
  pub output : List ℕ
  pub ev_read : Bool
  pub ev_write : Bool
  pub shut_wr : Bool
  pub shut_rd : Bool
  pub closing : Bool
  pub freed : Bool
  pub received : List ℕ
  pub sent : List ℕ

-- The argument of a callback and its context.
pub record Pair : Type 0 where
  pub bev : Bufferevent
  pub other : Bufferevent

abbrev pub turned : Pair → Pair
turned s = record { bev = s.other; other = s.bev }

unfoldable pub bev_splice_shutdown_write : Bufferevent → Bufferevent
bev_splice_shutdown_write b =
    if length b.output == 0 then record b { ev_write = false; shut_wr = true } else b

-- bufferevent_write_buffer(other, bufferevent_get_input(bev))
abbrev pub write_buffer : Pair → Pair
write_buffer s = record {
  bev = record (s.bev) { input = [] };
  other = record (s.other) { output = s.other.output ++ s.bev.input };
}

unfoldable pub bev_splice_read_cb : Pair → Pair
bev_splice_read_cb s = if length s.other.output == 0 then write_buffer s else s

unfoldable pub bev_splice_write_cb : Pair → Pair
bev_splice_write_cb s =
    let s1 = turned (bev_splice_read_cb (turned s)) in
    if not s1.other.ev_read then record s1 { bev = bev_splice_shutdown_write s1.bev } else s1

unfoldable pub bev_splice_free_write_cb : Bufferevent → Bufferevent
bev_splice_free_write_cb b = record b { ev_write = false; freed = true }

-- The three tests of bev_splice_event_cb.
unfoldable pub ended_read : Pair → Pair
ended_read s =
    let s1 = write_buffer s in
    if not s.bev.ev_read then record s1 { other = bev_splice_shutdown_write s1.other } else s

unfoldable pub ended_write : Pair → Pair
ended_write s =
    if not s.bev.ev_write
    then record {
      bev = record (s.bev) { output = [] };
      other = record (s.other) { input = []; ev_read = false; shut_rd = true };
    }
    else s

unfoldable pub ended_both : Pair → Pair
ended_both s =
    if not (s.bev.ev_read || s.bev.ev_write)
    then record {
      bev = record (s.bev) { freed = true };
      other =
          if length s.other.output == 0
          then bev_splice_free_write_cb s.other
          else record (s.other) { closing = true };
    }
    else s

unfoldable pub bev_splice_event_cb : Bool → Pair → Pair
bev_splice_event_cb connected s =
    if connected then bev_splice_write_cb s else ended_both (ended_write (ended_read s))

-- ===== src/Splice/Tests.antt =====
-- bev_splice.c: the theorem on a connection that ends while bytes of it wait.
use newnode.Prelude.{refl, true, false, [], ◌∷◌}
use newnode.Splice.{Bufferevent, Pair, bev_splice_event_cb}
use newnode.Splice.Relay.{Relays, ends, Step-Relays}

abbrev open_end : Bufferevent
open_end = record {
  input = [];
  output = [];
  ev_read = true;
  ev_write = true;
  shut_wr = false;
  shut_rd = false;
  closing = false;
  freed = false;
  received = [];
  sent = [];
}

-- Three bytes were read, of which one is sent, one waits in the output, and one in the input.
abbrev busy : Pair
busy = record {
  bev = record open_end { input = 3 ∷ []; received = 1 ∷ 2 ∷ 3 ∷ [] };
  other = record open_end { output = 2 ∷ []; sent = 1 ∷ [] };
}

busy-Relays : Relays busy
busy-Relays = record {
  there = refl;
  back = refl;
  shut_bev = (λ e. refl, λ e. refl, λ e. cc);
  shut_other = (λ e. cc, λ e. cc, λ e. cc);
}

Step-Relays_example :
    Relays (bev_splice_event_cb false (record busy { bev = record (busy.bev) { ev_read = false } }))
Step-Relays_example =
    Step-Relays busy
      (bev_splice_event_cb false (record busy { bev = record (busy.bev) { ev_read = false } }))
      (ends busy refl refl) busy-Relays

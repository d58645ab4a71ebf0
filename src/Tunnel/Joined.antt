-- ===== src/Tunnel/Joined.antt =====
-- client.c: the callbacks that hand over a connection keep that nothing is lost of what the browser has sent.
use mathlib.Core.Path.{subst}
use newnode.Prelude.{
  ◌>>=◌, ℕ, zero, suc, ◌≡◌, ◌∙◌, refl, sym, ap, Bool, false, not, ◌||◌, Option, none, some, List,
  [], ◌∷◌, ◌++◌, append_assoc, append-nil, ◌==◌, if_intro,
}
use newnode.Socks.{socks_reply}
use newnode.Splice.{Bufferevent, Pair}
use newnode.Splice.Relay.{Stream}
use newnode.Tunnel.{
  ConnectReq, tell, peer_is_loop, enable, write, write_all, or_nothing, connect_server_read_cb,
  bev_at, set_bev, cleared, free_others, joined, other_answers, other_ends,
}
use newnode.Tunnel.Answers.{
  Outcome, timed_out, is_connected, failed, put_bev, in_slot, introduced, established, connected,
  connect_header_cb, refusal, direct_code, connect_direct_event_cb,
}
use newnode.Tunnel.Calls.{server_received}
use newnode.Tunnel.Delivers.{
  AllGiven, Carries, Streams, Delivers, DeliversOr, cleanup_Delivers, send_Delivers,
  refusal-Delivers, cancel_Delivers,
}

-- A connection through which nothing was sent yet.
abbrev pub Unused : Bufferevent → Type 0
Unused b = (b.sent ≡ []) × (b.output ≡ [])

written_first :
    (b : Bufferevent) (bytes : List ℕ) → Unused b → b.sent ++ (b.output ++ bytes) ≡ bytes
written_first b bytes u = ap (λ x. x ++ (b.output ++ bytes)) u.0 ∙ ap (λ x. x ++ bytes) u.1

GivenOr : List ℕ → Option (List (Option Bufferevent)) → Type 0
GivenOr bytes none = Unit
GivenOr bytes (some bs) = AllGiven bytes bs

then_given :
    (bytes : List ℕ) (a : Bufferevent) (o : Option (List (Option Bufferevent)))
    → a.sent ++ a.output ≡ bytes
    → GivenOr bytes o
    → GivenOr bytes (o >>= λ rest. some (some a ∷ rest))
unfolding GivenOr AllGiven
then_given bytes a none h g = tt
then_given bytes a (some bs) h g = (h, g)

put_given :
    (bytes : List ℕ) (b : Bufferevent) (bs : List (Option Bufferevent))
    → b.sent ++ b.output ≡ bytes
    → AllGiven bytes bs
    → GivenOr bytes (put_bev b bs)
unfolding GivenOr AllGiven put_bev
put_given bytes b [] h g = tt
put_given bytes b (none ∷ bs) h g = (h, g)
put_given bytes b (some a ∷ bs) h g =
    then_given bytes a (put_bev b bs) g.0 (put_given bytes b bs h g.1)

slot_Delivers :
    (c : ConnectReq) (o : Option (List (Option Bufferevent)))
    → Streams c.spliced
    → or_nothing c.intro_data ++ c.server.input ≡ c.server.received
    → (c.intro_data ≡ none → c.server.input ≡ [])
    → GivenOr (or_nothing c.intro_data) o
    → DeliversOr (in_slot c o)
unfolding DeliversOr Delivers GivenOr
slot_Delivers c none s w e g = tt
slot_Delivers c (some bs) s w e g = (s, λ _. record { whole = w; early = e; given = g })

introduced_Delivers :
    (greeting : List ℕ) (c : ConnectReq) (other : Bufferevent) (o : Option (List ℕ))
    → c.intro_data ≡ o
    → Unused other
    → Streams c.spliced
    → Carries c.server o c.bevs
    → DeliversOr (introduced greeting c other o)
introduced_Delivers greeting c other (some intro) e u s d =
    slot_Delivers c _ s (ap (λ x. or_nothing x ++ c.server.input) e ∙ d.whole)
      (λ gone. let clash : some intro ≡ none = sym e ∙ gone in cc)
      (subst (λ x. GivenOr (or_nothing x) (put_bev (write intro other) c.bevs)) (sym e)
        (put_given intro (write intro other) c.bevs (written_first other intro u) d.given))
introduced_Delivers greeting c other none e u s d =
    slot_Delivers
      (record c {
        intro_data = some c.server.input;
        server = write greeting (record (c.server) { input = [] });
      })
      _ s (append-nil c.server.input ∙ d.whole) (λ gone. refl)
      (subst (λ x. GivenOr x (put_bev other c.bevs)) (sym (d.early refl))
        (put_given [] other c.bevs (ap (λ x. x ++ other.output) u.0 ∙ u.1) d.given))

-- A connection is tried from then on, and gets first what the browser has sent before.
connected-Delivers :
    (other : Bufferevent) (c : ConnectReq)
    → Unused other
    → c.freed ≡ false
    → Delivers c
    → DeliversOr (connected other c)
unfolding connected DeliversOr Delivers
connected-Delivers other c u live d =
    let k : Carries c.server c.intro_data c.bevs = d.1 live in
    let k1 : Carries (enable c.server) c.intro_data c.bevs = record {
      whole = k.whole;
      early = k.early;
      given = k.given;
    } in
    if_intro DeliversOr c.server_req
      (λ _. introduced_Delivers established _ (enable other) c.intro_data refl u d.0 k1)
      (λ _.
        if_intro DeliversOr (c.server_bev || c.pending_bev)
          (λ _. introduced_Delivers (socks_reply 0x00) _ (enable other) c.intro_data refl u d.0 k1)
          (λ _. tt))

pub header_Delivers :
    (code : ℕ) (msign : Option Bool) (other : Bufferevent) (c : ConnectReq)
    → Unused other
    → c.freed ≡ false
    → Delivers c
    → DeliversOr (connect_header_cb code msign other c)
unfolding connect_header_cb Delivers
header_Delivers code msign other c u live d =
    if_intro DeliversOr (not (code == 200))
      (λ _.
        if_intro (λ x. DeliversOr (refusal code x msign)) (code == 508)
          (λ _. refusal-Delivers code msign (tell peer_is_loop c) d)
          (λ _. refusal-Delivers code msign c d))
      (λ _. connected-Delivers other (record c { pc = false }) u live d)

pub direct_Delivers :
    (o : Outcome) (other : Bufferevent) (c : ConnectReq)
    → Unused other
    → c.freed ≡ false
    → Delivers c
    → DeliversOr (connect_direct_event_cb o other c)
unfolding connect_direct_event_cb Delivers
direct_Delivers timed_out other c u live d = cleanup_Delivers _ (send_Delivers 504 _ d)
direct_Delivers (failed err) other c u live d =
    cleanup_Delivers _ (send_Delivers (direct_code err) _ d)
direct_Delivers is_connected other c u live d =
    connected-Delivers other (record c { direct = false }) u live d

given-write_all :
    (bytes more : List ℕ) (bs : List (Option Bufferevent))
    → AllGiven bytes bs
    → AllGiven (bytes ++ more) (write_all more bs)
unfolding AllGiven write_all
given-write_all bytes more [] g = tt
given-write_all bytes more (none ∷ bs) g = given-write_all bytes more bs g
given-write_all bytes more (some b ∷ bs) g = (
  sym (append_assoc b.sent b.output more) ∙ ap (λ x. x ++ more) g.0,
  given-write_all bytes more bs g.1,
)

pub reads_Delivers :
    (bytes : List ℕ) (c : ConnectReq)
    → c.freed ≡ false
    → Delivers c
    → Delivers (connect_server_read_cb (server_received bytes c))
unfolding connect_server_read_cb Delivers
reads_Delivers bytes c live d =
    let k : Carries c.server c.intro_data c.bevs = d.1 live in
    let sent = or_nothing c.intro_data in
    (
      d.0,
      λ _. record {
        whole =
            append-nil _
            ∙ (sym (append_assoc sent c.server.input bytes) ∙ ap (λ x. x ++ bytes) k.whole);
        early = λ _. refl;
        given = given-write_all sent (c.server.input ++ bytes) c.bevs k.given;
      },
    )

pub given-set_bev :
    (bytes : List ℕ) (bs : List (Option Bufferevent)) (i : ℕ) (v : Option Bufferevent)
    → AllGiven bytes bs
    → AllGiven bytes (v ∷ [])
    → AllGiven bytes (set_bev bs i v)
unfolding AllGiven set_bev
given-set_bev bytes [] i v g h = tt
given-set_bev bytes (none ∷ bs) zero none g h = g
given-set_bev bytes (none ∷ bs) zero (some b) g h = (h.0, g)
given-set_bev bytes (some a ∷ bs) zero none g h = g.1
given-set_bev bytes (some a ∷ bs) zero (some b) g h = (h.0, g.1)
given-set_bev bytes (none ∷ bs) (suc i) v g h = given-set_bev bytes bs i v g h
given-set_bev bytes (some a ∷ bs) (suc i) v g h = (g.0, given-set_bev bytes bs i v g.1 h)

pub given-bev_at :
    (bytes : List ℕ) (bs : List (Option Bufferevent)) (i : ℕ)
    → AllGiven bytes bs
    → AllGiven bytes (bev_at bs i ∷ [])
unfolding AllGiven bev_at
given-bev_at bytes [] i g = tt
given-bev_at bytes (none ∷ bs) zero g = tt
given-bev_at bytes (some b ∷ bs) zero g = (g.0, tt)
given-bev_at bytes (none ∷ bs) (suc i) g = given-bev_at bytes bs i g
given-bev_at bytes (some b ∷ bs) (suc i) g = given-bev_at bytes bs i g.1

given-cleared : (bytes : List ℕ) (bs : List (Option Bufferevent)) → AllGiven bytes (cleared bs)
unfolding AllGiven
given-cleared bytes [] = tt
given-cleared bytes (b ∷ bs) = given-cleared bytes bs

pub ends_Delivers :
    (i : ℕ) (c : ConnectReq) (o : Option Bufferevent)
    → c.freed ≡ false
    → Delivers c
    → DeliversOr (other_ends i c o)
unfolding DeliversOr Delivers AllGiven
ends_Delivers i c none live d = tt
ends_Delivers i c (some bev) live d =
    let k : Carries c.server c.intro_data c.bevs = d.1 live in
    (
      d.0,
      λ _. record {
        whole = k.whole;
        early = k.early;
        given = given-set_bev (or_nothing c.intro_data) c.bevs i none k.given tt;
      },
    )

joined-Delivers :
    (p : Pair) (o : Option ConnectReq)
    → Stream p.bev p.other
    → DeliversOr o
    → DeliversOr (joined p o)
unfolding DeliversOr Delivers Streams
joined-Delivers p none s d = tt
joined-Delivers p (some c) s d = (s, d.1)

pub answers_Delivers :
    (i : ℕ) (c : ConnectReq) (o : Option Bufferevent)
    → AllGiven (or_nothing c.intro_data) (o ∷ [])
    → c.freed ≡ false
    → Delivers c
    → DeliversOr (other_answers i c o)
unfolding DeliversOr Delivers AllGiven
answers_Delivers i c none g live d = tt
answers_Delivers i c (some bev) g live d =
    let k : Carries c.server c.intro_data c.bevs = d.1 live in
    let alone = record c {
      bevs = cleared c.bevs;
      pending_bev = false;
      events = c.events ++ free_others i 0 c.bevs;
    } in
    joined-Delivers _ _
      (sym (append_assoc bev.sent bev.output c.server.input)
        ∙ (ap (λ x. x ++ c.server.input) g.0 ∙ k.whole))
      (cancel_Delivers alone
        (d.0, λ _. record { whole = k.whole; early = k.early; given = given-cleared _ c.bevs }))

-- ===== src/Isotp/Bound/Unbind.antt =====
-- `isotp_fast_unbind` (src/can/zephyr/isotp/isotp_fast.c): which contexts are freed, and which must outlive it.
use thingsetplusplus.Prelude.{
  ℕ, suc, ◌+◌, length, arith, ◌≡◌, refl, sym, ap, ◌∙◌, inl, inr, false, List, [], ◌∷◌, ◌++◌, Option,
  none, some, ◌==◌, if◌then◌else◌, Bool-cases, append_assoc, append_nil, ==_iff,
}
use thingsetplusplus.Isotp.{IsotpError, other_error, unbound, RecvCtx, SendCtx}
use thingsetplusplus.Isotp.Send.{send_report_error}
use thingsetplusplus.Isotp.Calls.{
  release_recv, release_send, unbind_recv, unbind_send, isotp_fast_unbind,
}
use thingsetplusplus.Isotp.Bound.{Bound, remove, recv_addr, send_addr}

-- The contexts that the driver still has a callback for, as they are kept.
abbrev pub recv_outstanding : List RecvCtx → List RecvCtx
recv_outstanding [] = []
recv_outstanding (c ∷ cs) =
    if c.pending_cb == 0
    then recv_outstanding cs
    else record c { timer = none; state = unbound } ∷ recv_outstanding cs

abbrev pub send_outstanding : List SendCtx → List SendCtx
send_outstanding [] = []
send_outstanding (c ∷ cs) =
    if c.pending_cb == 0
    then send_outstanding cs
    else send_report_error other_error (record c { timer = none }) ∷ send_outstanding cs

-- What the application is told of the others.
abbrev pub given_up : List SendCtx → List (ℕ × Option IsotpError)
given_up [] = []
given_up (c ∷ cs) =
    if c.pending_cb == 0 then (c.tx_addr, some other_error) ∷ given_up cs else given_up cs

-- How many contexts are freed, and the buffers in them.
abbrev pub recv_freed : List RecvCtx → ℕ
recv_freed [] = 0
recv_freed (c ∷ cs) = if c.pending_cb == 0 then suc (recv_freed cs) else recv_freed cs

abbrev pub bufs_freed : List RecvCtx → ℕ
bufs_freed [] = 0
bufs_freed (c ∷ cs) =
    if c.pending_cb == 0 then suc (length c.buffer) + bufs_freed cs else bufs_freed cs

abbrev pub send_freed : List SendCtx → ℕ
send_freed [] = 0
send_freed (c ∷ cs) = if c.pending_cb == 0 then suc (send_freed cs) else send_freed cs

pub record Unbound {D : Type 0} (b b' : Bound D) : Type 0 where
  pub receiving : b'.receiving ≡ []
  pub sending : b'.sending ≡ []
  pub filter : b'.filter ≡ false
  pub recv_orphans : b'.recv_orphans ≡ b.recv_orphans ++ recv_outstanding b.receiving
  pub send_orphans : b'.send_orphans ≡ b.send_orphans ++ send_outstanding b.sending
  pub finished : b'.world.finished ≡ b.world.finished ++ given_up b.sending
  pub delivered : b'.world.delivered ≡ b.world.delivered
  pub frames : b'.world.frames ≡ b.world.frames
  pub failed : b'.world.failed ≡ b.world.failed
  pub free_recv : b'.world.free_recv ≡ b.world.free_recv + recv_freed b.receiving
  pub free_bufs : b'.world.free_bufs ≡ b.world.free_bufs + bufs_freed b.receiving
  pub free_send : b'.world.free_send ≡ b.world.free_send + send_freed b.sending

-- The context of the first loop's next round is the first of its list.
module _ {D : Type 0} (c : RecvCtx) (cs : List RecvCtx) (b : Bound D)
    (e : b.receiving ≡ c ∷ cs) where
  record ReleasesRecv (b' : Bound D) : Type 0 where
    receiving : b'.receiving ≡ cs
    sending : b'.sending ≡ b.sending
    filter : b'.filter ≡ b.filter
    recv_orphans :
        b'.recv_orphans ++ recv_outstanding cs ≡ b.recv_orphans ++ recv_outstanding (c ∷ cs)
    send_orphans : b'.send_orphans ≡ b.send_orphans
    finished : b'.world.finished ≡ b.world.finished
    delivered : b'.world.delivered ≡ b.world.delivered
    frames : b'.world.frames ≡ b.world.frames
    failed : b'.world.failed ≡ b.world.failed
    free_recv : b'.world.free_recv + recv_freed cs ≡ b.world.free_recv + recv_freed (c ∷ cs)
    free_bufs : b'.world.free_bufs + bufs_freed cs ≡ b.world.free_bufs + bufs_freed (c ∷ cs)
    free_send : b'.world.free_send ≡ b.world.free_send

  release_recv_lem : ReleasesRecv (release_recv c b)
  unfolding release_recv remove
  release_recv_lem =
      let rest : remove recv_addr c.rx_addr b.receiving ≡ cs =
        ap (remove recv_addr c.rx_addr) e ∙ rw ((==_iff c.rx_addr c.rx_addr).1 refl) refl in
      let kept : RecvCtx = record c { timer = none; state = unbound } in
      elim (Bool-cases (c.pending_cb == 0)) [
        | inl idle ↦ rw idle (record {
          receiving = rest;
          sending = refl;
          filter = refl;
          recv_orphans = rw idle refl;
          send_orphans = refl;
          finished = refl;
          delivered = refl;
          frames = refl;
          failed = refl;
          free_recv = rw idle (omega arith);
          free_bufs = rw idle (omega arith);
          free_send = refl;
        })
        | inr busy ↦ rw busy (record {
          receiving = rest;
          sending = refl;
          filter = refl;
          recv_orphans = rw busy (append_assoc b.recv_orphans (kept ∷ []) (recv_outstanding cs));
          send_orphans = refl;
          finished = refl;
          delivered = refl;
          frames = refl;
          failed = refl;
          free_recv = rw busy refl;
          free_bufs = rw busy refl;
          free_send = refl;
        })
      ]

module _ {D : Type 0} (c : SendCtx) (cs : List SendCtx) (b : Bound D) (e : b.sending ≡ c ∷ cs) where
  record ReleasesSend (b' : Bound D) : Type 0 where
    receiving : b'.receiving ≡ b.receiving
    sending : b'.sending ≡ cs
    filter : b'.filter ≡ b.filter
    recv_orphans : b'.recv_orphans ≡ b.recv_orphans
    send_orphans :
        b'.send_orphans ++ send_outstanding cs ≡ b.send_orphans ++ send_outstanding (c ∷ cs)
    finished : b'.world.finished ++ given_up cs ≡ b.world.finished ++ given_up (c ∷ cs)
    delivered : b'.world.delivered ≡ b.world.delivered
    frames : b'.world.frames ≡ b.world.frames
    failed : b'.world.failed ≡ b.world.failed
    free_recv : b'.world.free_recv ≡ b.world.free_recv
    free_bufs : b'.world.free_bufs ≡ b.world.free_bufs
    free_send : b'.world.free_send + send_freed cs ≡ b.world.free_send + send_freed (c ∷ cs)

  release_send_lem : ReleasesSend (release_send c b)
  unfolding release_send remove
  release_send_lem =
      let rest : remove send_addr c.tx_addr b.sending ≡ cs =
        ap (remove send_addr c.tx_addr) e ∙ rw ((==_iff c.tx_addr c.tx_addr).1 refl) refl in
      let kept = send_report_error other_error (record c { timer = none }) in
      elim (Bool-cases (c.pending_cb == 0)) [
        | inl idle ↦ rw idle (record {
          receiving = refl;
          sending = rest;
          filter = refl;
          recv_orphans = refl;
          send_orphans = rw idle refl;
          finished =
              rw idle
                (append_assoc b.world.finished ((c.tx_addr, some other_error) ∷ []) (given_up cs));
          delivered = refl;
          frames = refl;
          failed = refl;
          free_recv = refl;
          free_bufs = refl;
          free_send = rw idle (omega arith);
        })
        | inr busy ↦ rw busy (record {
          receiving = refl;
          sending = rest;
          filter = refl;
          recv_orphans = refl;
          send_orphans = rw busy (append_assoc b.send_orphans (kept ∷ []) (send_outstanding cs));
          finished = rw busy refl;
          delivered = refl;
          frames = refl;
          failed = refl;
          free_recv = refl;
          free_bufs = refl;
          free_send = rw busy refl;
        })
      ]

-- The loops, by the equations that a round keeps.
module _ {D : Type 0} where
  record AfterRecv (cs : List RecvCtx) (b b' : Bound D) : Type 0 where
    receiving : b'.receiving ≡ []
    sending : b'.sending ≡ b.sending
    filter : b'.filter ≡ b.filter
    recv_orphans : b'.recv_orphans ≡ b.recv_orphans ++ recv_outstanding cs
    send_orphans : b'.send_orphans ≡ b.send_orphans
    finished : b'.world.finished ≡ b.world.finished
    delivered : b'.world.delivered ≡ b.world.delivered
    frames : b'.world.frames ≡ b.world.frames
    failed : b'.world.failed ≡ b.world.failed
    free_recv : b'.world.free_recv ≡ b.world.free_recv + recv_freed cs
    free_bufs : b'.world.free_bufs ≡ b.world.free_bufs + bufs_freed cs
    free_send : b'.world.free_send ≡ b.world.free_send

  unbind_recv_lem :
      (cs : List RecvCtx) (b : Bound D) → b.receiving ≡ cs → AfterRecv cs b (unbind_recv cs b)
  unfolding unbind_recv
  unbind_recv_lem [] b e = record {
    receiving = e;
    sending = refl;
    filter = refl;
    recv_orphans = sym (append_nil b.recv_orphans);
    send_orphans = refl;
    finished = refl;
    delivered = refl;
    frames = refl;
    failed = refl;
    free_recv = omega arith;
    free_bufs = omega arith;
    free_send = omega arith;
  }
  unbind_recv_lem (c ∷ cs) b e =
      let s = release_recv_lem c cs b e in
      let r = unbind_recv_lem cs (release_recv c b) s.receiving in
      record {
        receiving = r.receiving;
        sending = r.sending ∙ s.sending;
        filter = r.filter ∙ s.filter;
        recv_orphans = r.recv_orphans ∙ s.recv_orphans;
        send_orphans = r.send_orphans ∙ s.send_orphans;
        finished = r.finished ∙ s.finished;
        delivered = r.delivered ∙ s.delivered;
        frames = r.frames ∙ s.frames;
        failed = r.failed ∙ s.failed;
        free_recv = r.free_recv ∙ s.free_recv;
        free_bufs = r.free_bufs ∙ s.free_bufs;
        free_send = r.free_send ∙ s.free_send;
      }

  record AfterSend (cs : List SendCtx) (b b' : Bound D) : Type 0 where
    receiving : b'.receiving ≡ b.receiving
    sending : b'.sending ≡ []
    filter : b'.filter ≡ b.filter
    recv_orphans : b'.recv_orphans ≡ b.recv_orphans
    send_orphans : b'.send_orphans ≡ b.send_orphans ++ send_outstanding cs
    finished : b'.world.finished ≡ b.world.finished ++ given_up cs
    delivered : b'.world.delivered ≡ b.world.delivered
    frames : b'.world.frames ≡ b.world.frames
    failed : b'.world.failed ≡ b.world.failed
    free_recv : b'.world.free_recv ≡ b.world.free_recv
    free_bufs : b'.world.free_bufs ≡ b.world.free_bufs
    free_send : b'.world.free_send ≡ b.world.free_send + send_freed cs

  unbind_send_lem :
      (cs : List SendCtx) (b : Bound D) → b.sending ≡ cs → AfterSend cs b (unbind_send cs b)
  unfolding unbind_send
  unbind_send_lem [] b e = record {
    receiving = refl;
    sending = e;
    filter = refl;
    recv_orphans = refl;
    send_orphans = sym (append_nil b.send_orphans);
    finished = sym (append_nil b.world.finished);
    delivered = refl;
    frames = refl;
    failed = refl;
    free_recv = omega arith;
    free_bufs = omega arith;
    free_send = omega arith;
  }
  unbind_send_lem (c ∷ cs) b e =
      let s = release_send_lem c cs b e in
      let r = unbind_send_lem cs (release_send c b) s.sending in
      record {
        receiving = r.receiving ∙ s.receiving;
        sending = r.sending;
        filter = r.filter ∙ s.filter;
        recv_orphans = r.recv_orphans ∙ s.recv_orphans;
        send_orphans = r.send_orphans ∙ s.send_orphans;
        finished = r.finished ∙ s.finished;
        delivered = r.delivered ∙ s.delivered;
        frames = r.frames ∙ s.frames;
        failed = r.failed ∙ s.failed;
        free_recv = r.free_recv ∙ s.free_recv;
        free_bufs = r.free_bufs ∙ s.free_bufs;
        free_send = r.free_send ∙ s.free_send;
      }

  -- Unbinding removes the filter and takes every context out of the lists. The contexts that no completion callback of
  -- the driver can still reach are freed, with all their buffers, and for those of them that send the
  -- application is told of a failure. All others, and no other, are kept as orphans, in their order, with
  -- their timers stopped: those that receive in a state in which nothing happens to them, those that send
  -- in the state of an error. Nothing is delivered and nothing is sent, and of messages that were being
  -- received the application is told nothing.
  pub isotp_fast_unbind_lem : (b : Bound D) → Unbound b (isotp_fast_unbind b)
  unfolding isotp_fast_unbind
  isotp_fast_unbind_lem b =
      let closed : Bound D = record b { filter = false } in
      let first = unbind_recv_lem b.receiving closed refl in
      let middle = unbind_recv b.receiving closed in
      let second = unbind_send_lem middle.sending middle refl in
      record {
        receiving = second.receiving ∙ first.receiving;
        sending = second.sending;
        filter = second.filter ∙ first.filter;
        recv_orphans = second.recv_orphans ∙ first.recv_orphans;
        send_orphans = second.send_orphans ∙ rw (first.send_orphans, first.sending) refl;
        finished = second.finished ∙ rw (first.finished, first.sending) refl;
        delivered = second.delivered ∙ first.delivered;
        frames = second.frames ∙ first.frames;
        failed = second.failed ∙ first.failed;
        free_recv = second.free_recv ∙ first.free_recv;
        free_bufs = second.free_bufs ∙ first.free_bufs;
        free_send = second.free_send ∙ rw (first.free_send, first.sending) refl;
      }

-- ===== src/Isotp/Bound/Balance.antt =====
-- The slabs and the pool of a bound context (src/can/zephyr/isotp/isotp_fast.c): whatever happens, no context and no
-- buffer gets lost.
use thingsetplusplus.Prelude.{
  ℕ, suc, ◌+◌, ◌≡◌, refl, sym, ap, ◌∙◌, inl, inr, Bool, true, false, List, [], ◌∷◌, ◌++◌, Option,
  none, some, length, length-append, ◌==◌, if◌then◌else◌, arith, Bool-cases, Option-cases, subst,
  ==_iff,
}
use thingsetplusplus.Isotp.{RecvCtx, SendCtx, Run, live, freed, fault, stuck}
use thingsetplusplus.Isotp.Receive.{new_recv_ctx}
use thingsetplusplus.Isotp.Receive.Keeps.{RecvKeeps}
use thingsetplusplus.Isotp.Send.Keeps.{SendKeeps}
use thingsetplusplus.Isotp.Bound.Contexts.{find-last}
use thingsetplusplus.Isotp.Bound.{
  Bound, find, put, remove, recv_addr, send_addr, Lookup, got, no_context, no_ctx_left, no_buf_left,
  commit_recv, commit_send, extend_recv_ctx, create_recv_ctx, get_recv_ctx,
}

-- Lists of contexts with a weight: what a context that is put back, or taken out, changes.
module _ {C : Type 0} (address : C → ℕ) (weight : C → ℕ) where
  abbrev pub total : List C → ℕ
  total [] = 0
  total (c ∷ cs) = weight c + total cs

  abbrev weight_of : Option C → ℕ
  weight_of none = 0
  weight_of (some c) = weight c

  pub total-snoc : (cs : List C) (c : C) → total (cs ++ c ∷ []) ≡ total cs + weight c
  total-snoc [] c = omega arith
  total-snoc (d ∷ ds) c = omega (arith, total-snoc ds c)

  pub total-put :
      (cs : List C) (c d : C)
      → find address (address d) cs ≡ some c
      → total (put address d cs) + weight c ≡ total cs + weight d
  unfolding find put
  total-put [] c d h = cc
  total-put (x ∷ xs) c d h = elim (Bool-cases (address x == address d)) [
    | inl here ↦ rw here (at_head (rw here at h))
    | inr not_here ↦ rw not_here (omega (arith, total-put xs c d (rw not_here at h)))
  ]
    where
      at_head : some x ≡ some c → weight d + total xs + weight c ≡ weight x + total xs + weight d
      at_head e = omega (arith, ap weight_of e)

  pub total-remove :
      (cs : List C) (c : C) (a : ℕ)
      → find address a cs ≡ some c
      → total (remove address a cs) + weight c ≡ total cs
  unfolding find remove
  total-remove [] c a h = cc
  total-remove (x ∷ xs) c a h = elim (Bool-cases (address x == a)) [
    | inl here ↦ rw here (at_head (rw here at h))
    | inr not_here ↦ rw not_here (omega (arith, total-remove xs c a (rw not_here at h)))
  ]
    where
      at_head : some x ≡ some c → total xs + weight c ≡ weight x + total xs
      at_head e = omega (arith, ap weight_of e)

pub find-address :
    {C : Type 0} (address : C → ℕ) (a : ℕ) (cs : List C) (c : C)
    → find address a cs ≡ some c
    → address c ≡ a
unfolding find
find-address address a [] c h = cc
find-address address a (x ∷ xs) c h = elim (Bool-cases (address x == a)) [
  | inl here ↦ at_head here (rw here at h)
  | inr not_here ↦ find-address address a xs c (rw not_here at h)
]
  where
    at_head : (address x == a) ≡ true → some x ≡ some c → address c ≡ a
    at_head here e = ground arith

find-put :
    {C : Type 0} (address : C → ℕ) (cs : List C) (c d : C)
    → find address (address d) cs ≡ some c
    → find address (address d) (put address d cs) ≡ some d
unfolding find put
find-put address [] c d h = cc
find-put address (x ∷ xs) c d h = elim (Bool-cases (address x == address d)) [
  | inl here ↦ rw here (rw ((==_iff (address d) (address d)).1 refl) refl)
  | inr not_here ↦ rw (not_here, not_here) (find-put address xs c d (rw not_here at h))
]

abbrev pub one : {C : Type 0} → C → ℕ
one c = 1

-- The buffers that a receive context holds.
abbrev pub held : RecvCtx → ℕ
held c = suc (length c.buffer)

-- The free and the used entries make up the slabs and the pool.
pub record Balanced {D : Type 0} (recvs sends bufs : ℕ) (b : Bound D) : Type 0 where
  pub recv_slab :
      b.world.free_recv + total recv_addr one b.receiving + total recv_addr one b.recv_orphans
      ≡ recvs
  pub send_slab :
      b.world.free_send + total send_addr one b.sending + total send_addr one b.send_orphans ≡ sends
  pub pool :
      b.world.free_bufs + total recv_addr held b.receiving + total recv_addr held b.recv_orphans
      ≡ bufs

module _ {D : Type 0} (recvs sends bufs : ℕ) where
  -- A fault leaves nothing to say.
  abbrev pub BalancedAfter : Option (Bound D) → Type 0
  BalancedAfter none = Unit {0}
  BalancedAfter (some b) = Balanced recvs sends bufs b

  module _ (b : Bound D) (h : Balanced recvs sends bufs b) where
    pub commit_recv-Balanced :
        (a : ℕ) (c : RecvCtx) (r : Run RecvCtx D)
        → find recv_addr a b.receiving ≡ some c
        → RecvKeeps c b.world r
        → BalancedAfter (commit_recv a b r)
    unfolding commit_recv
    commit_recv-Balanced a c (live c' w') there (address, recv, send, buffers) =
        let at : find recv_addr c'.rx_addr b.receiving ≡ some c =
          subst (λ (i : ℕ). find recv_addr i b.receiving ≡ some c)
            (sym (address ∙ find-address recv_addr a b.receiving c there)) there in
        record {
          recv_slab = omega (arith, h.recv_slab, recv, total-put recv_addr one b.receiving c c' at);
          send_slab = omega (arith, h.send_slab, send);
          pool = omega (arith, h.pool, buffers, total-put recv_addr held b.receiving c c' at);
        }
    commit_recv-Balanced a c (freed w') there (recv, send, buffers) = record {
      recv_slab =
          omega (arith, h.recv_slab, recv, total-remove recv_addr one b.receiving c a there);
      send_slab = omega (arith, h.send_slab, send);
      pool = omega (arith, h.pool, buffers, total-remove recv_addr held b.receiving c a there);
    }
    commit_recv-Balanced a c fault there keeps = tt
    commit_recv-Balanced a c stuck there keeps = tt

    pub commit_send-Balanced :
        (a : ℕ) (c : SendCtx) (r : Run SendCtx D)
        → find send_addr a b.sending ≡ some c
        → SendKeeps c b.world r
        → BalancedAfter (commit_send a b r)
    unfolding commit_send
    commit_send-Balanced a c (live c' w') there (address, send, recv, buffers) =
        let at : find send_addr c'.tx_addr b.sending ≡ some c =
          subst (λ (i : ℕ). find send_addr i b.sending ≡ some c)
            (sym (address ∙ find-address send_addr a b.sending c there)) there in
        record {
          recv_slab = omega (arith, h.recv_slab, recv);
          send_slab = omega (arith, h.send_slab, send, total-put send_addr one b.sending c c' at);
          pool = omega (arith, h.pool, buffers);
        }
    commit_send-Balanced a c (freed w') there (send, recv, buffers) = record {
      recv_slab = omega (arith, h.recv_slab, recv);
      send_slab = omega (arith, h.send_slab, send, total-remove send_addr one b.sending c a there);
      pool = omega (arith, h.pool, buffers);
    }
    commit_send-Balanced a c fault there keeps = tt
    commit_send-Balanced a c stuck there keeps = tt

    -- What a lookup leaves, and that the context which it got is in the list.
    abbrev pub RecvFound : ℕ → Lookup RecvCtx × Bound D → Type 0
    RecvFound a (got c, b') =
        Balanced recvs sends bufs b' × (find recv_addr a b'.receiving ≡ some c)
    RecvFound a (no_context, b') = Balanced recvs sends bufs b'
    RecvFound a (no_ctx_left, b') = Balanced recvs sends bufs b'
    RecvFound a (no_buf_left, b') = Balanced recvs sends bufs b'

    extend_recv_ctx-Balanced :
        (a : ℕ) (c : RecvCtx)
        → find recv_addr a b.receiving ≡ some c
        → RecvFound a (extend_recv_ctx c b)
    unfolding extend_recv_ctx
    extend_recv_ctx-Balanced a c there =
        let address = find-address recv_addr a b.receiving c there in
        let here : find recv_addr c.rx_addr b.receiving ≡ some c =
          subst (λ (i : ℕ). find recv_addr i b.receiving ≡ some c) (sym address) there in
        let c' : RecvCtx = record c { buffer = c.buffer ++ c.frag ∷ []; frag = [] } in
        elim (Bool-cases (b.world.free_bufs == 0)) [
          | inl empty ↦
              rw (empty, extend_recv_ctx)
                (record {
                  recv_slab =
                      omega (
                        arith,
                        h.recv_slab,
                        total-remove recv_addr one b.receiving c c.rx_addr here,
                      );
                  send_slab = h.send_slab;
                  pool =
                      omega
                        (arith, h.pool, total-remove recv_addr held b.receiving c c.rx_addr here);
                })
          | inr some_left ↦
              rw (some_left, extend_recv_ctx)
                (
                  record {
                    recv_slab =
                        omega (arith, h.recv_slab, total-put recv_addr one b.receiving c c' here);
                    send_slab = h.send_slab;
                    pool = ground (
                      arith,
                      h.pool,
                      total-put recv_addr held b.receiving c c' here,
                      length-append c.buffer (c.frag ∷ []),
                    );
                  },
                  subst (λ (i : ℕ). find recv_addr i (put recv_addr c' b.receiving) ≡ some c')
                      address (find-put recv_addr b.receiving c c' here),
                )
        ]

    create_recv_ctx-Balanced :
        (a : ℕ) → find recv_addr a b.receiving ≡ none → RecvFound a (create_recv_ctx a b)
    unfolding create_recv_ctx new_recv_ctx
    create_recv_ctx-Balanced a absent = elim (Bool-cases (b.world.free_recv == 0)) [
      | inl full ↦ rw (full, create_recv_ctx) h
      | inr ctxs ↦ elim (Bool-cases (b.world.free_bufs == 0)) [
        | inl empty ↦ rw (ctxs, empty, create_recv_ctx) h
        | inr some_left ↦
            rw (ctxs, some_left, create_recv_ctx)
              (
                record {
                  recv_slab =
                      ground
                        (arith, h.recv_slab, total-snoc recv_addr one b.receiving (new_recv_ctx a));
                  send_slab = h.send_slab;
                  pool =
                      ground
                        (arith, h.pool, total-snoc recv_addr held b.receiving (new_recv_ctx a));
                },
                find-last recv_addr b.receiving (new_recv_ctx a) absent,
              )
      ]
    ]

    pub get_recv_ctx-Balanced : (a : ℕ) (create : Bool) → RecvFound a (get_recv_ctx a create b)
    unfolding get_recv_ctx
    get_recv_ctx-Balanced a create = elim (Option-cases (find recv_addr a b.receiving)) [
      | inr (c, there) ↦ rw (there, get_recv_ctx) (extend_recv_ctx-Balanced a c there)
      | inl absent ↦ rw (absent, get_recv_ctx) (by_flag create absent)
    ]
      where
        by_flag :
            (create : Bool)
            → find recv_addr a b.receiving ≡ none
            → RecvFound a (if create then create_recv_ctx a b else (no_context, b))
        by_flag true absent = create_recv_ctx-Balanced a absent
        by_flag false absent = h

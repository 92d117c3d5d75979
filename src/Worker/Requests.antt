-- ===== src/Worker/Requests.antt =====
-- The handler of requests, and the calls that wait for an answer.
use mathlib.Core.Path.{subst}
use tecc.Base.{◌≡◌, ◌⊎◌, inl, inr, refl, sym, ap, ◌∙◌, Bool, true, false, some, ◌==◌, Bool-cases}
use tecc.Base.Int.{ℤ, pos}
use tecc.Base.Heap.{Ptr, null, put, Holds, load_lem, store_lem, Holds-put, Holds-put_ne, put_self}
use tecc.Base.Run.{ok, Returns}
use tecc.Map.Defs.{Map}
use tecc.Map.Table.{Buckets, IsTable, view}
use tecc.Map.Methods.{or_null, get-view}
use tecc.Worker.Messages.{
  Rpc, rpc, Msg, Store, Code, handler_not_found, as_rpc, set_signal, set_error, request_tag, answer,
  set_ready, on_rpc,
}

pub as_rpc_lem : (m : Msg) {r : Rpc} → m.body ≡ rpc r → as_rpc m ≡ ok r
unfolding as_rpc
as_rpc_lem m e = rw e

-- The message with the request of the fields `r`.
abbrev pub with_body : Msg → Rpc → Msg
with_body m r = record m { body = rpc r }

-- The request with no error.
abbrev pub no_error_rpc : Rpc → Rpc
no_error_rpc r = record r { error = pos 0 }

module _ {World : Type 0} where
  -- The request at `p` with another error.
  abbrev pub with_error : Store World → Ptr → Msg → Rpc → ℤ → Store World
  with_error s p m r err = record s {
    msgs = put s.msgs p (some (record m { body = rpc (record r { error = err }) }));
  }

  -- A request of the fields `r` stands at `p`.
  pub record Pending (s : Store World) (p : Ptr) (r : Rpc) : Type 0 where
    pub msg : Msg
    pub here : Holds s.msgs p msg
    pub is_rpc : msg.body ≡ rpc r

  -- A signal stands at `sig`.
  abbrev pub IsSignal : Store World → Ptr → Type 0
  IsSignal s sig = (b : Bool) × Holds s.signals sig b

  -- A callback ends, and leaves the request that it is given with the signal to set.
  abbrev pub KeepsRpc : Code World → Ptr → Type 0
  KeepsRpc code p =
      (s : Store World) (callback : Ptr) (r : Rpc)
      → Pending s p r
      → IsSignal s r.sig_ready
      → Returns (code.callback callback p s) λ s'.
        (r' : Rpc) × Pending s' p r' × (r'.sig_ready ≡ r.sig_ready) × IsSignal s' r.sig_ready

  set_error_lem :
      {s : Store World} {p : Ptr} {r : Rpc} (err : ℤ) (t : Pending s p r)
      → set_error s p err ≡ ok (with_error s p t.msg r err)
  unfolding set_error
  set_error_lem {s} {p} {r} err t = rw (
    load_lem t.here,
    as_rpc_lem t.msg t.is_rpc,
    store_lem t.here (record (t.msg) { body = rpc (record r { error = err }) }),
  )

  abbrev Pending-error :
      {s : Store World} {p : Ptr} {r : Rpc} (err : ℤ) (t : Pending s p r)
      → Pending (with_error s p t.msg r err) p (record r { error = err })
  Pending-error {r} err t = record {
    msg = with_body t.msg (record r { error = err });
    here = Holds-put t.here _;
    is_rpc = refl;
  }

  request_tag_lem :
      {s : Store World} {p : Ptr} {r : Rpc} (q : Msg)
      → Pending s p r
      → Holds s.msgs r.request q
      → request_tag s p ≡ ok q.tag
  unfolding request_tag
  request_tag_lem q t there = rw (load_lem t.here, as_rpc_lem t.msg t.is_rpc, load_lem there)

  set_ready_lem :
      {s : Store World} {p : Ptr} {r : Rpc} (t : Pending s p r)
      → IsSignal s r.sig_ready
      → set_ready s p ≡ ok (record s { signals = put s.signals r.sig_ready (some true) })
  unfolding set_ready set_signal
  set_ready_lem t (b, sig) = rw (load_lem t.here, as_rpc_lem t.msg t.is_rpc, store_lem sig true)

  -- How the request at `p` was answered in `s`, which gave `s'`: without a callback by the error
  -- TECC_ERR_HANDLER_NOT_FOUND, else by the callback, which was called for it.
  abbrev pub IsAnswer :
      Code World → Store World → Ptr → Msg → Rpc → Ptr → Store World → Rpc → Type 0
  IsAnswer code s p m r callback s' r' =
      (((callback == null) ≡ true)
        × (s' ≡ with_error s p m r handler_not_found)
        × (r'.error ≡ handler_not_found))
      ⊎ (((callback == null) ≡ false) × (code.callback callback p s ≡ ok s'))

  -- What the handler leaves of a request that stood in `s` with the fields `r`: `called` is the store
  -- that the answer gave; then its signal was set, and nothing else. The request is there still.
  pub record Answered (code : Code World) (s : Store World) (p : Ptr) (m : Msg) (r : Rpc)
      (callback : Ptr) (s' : Store World) : Type 0 where
    pub called : Store World
    pub rpc_after : Rpc
    pub answered : IsAnswer code s p m r callback called rpc_after
    pub set : s' ≡ record called { signals = put called.signals r.sig_ready (some true) }
    pub pending : Pending s' p rpc_after
    pub same_signal : rpc_after.sig_ready ≡ r.sig_ready
    pub signalled : s'.signals r.sig_ready ≡ some true

  -- The same of an equal store.
  abbrev pub Answered-along :
      {code : Code World} {s s' s'' : Store World} {p : Ptr} {m : Msg} {r : Rpc} {callback : Ptr}
      → s'' ≡ s'
      → Answered code s p m r callback s'
      → Answered code s p m r callback s''
  Answered-along {p} {r} e d = record {
    called = d.called;
    rpc_after = d.rpc_after;
    answered = d.answered;
    set = e ∙ d.set;
    pending = subst (λ (s : Store World). Pending s p d.rpc_after) (sym e) d.pending;
    same_signal = d.same_signal;
    signalled = ap (λ (s : Store World). s.signals r.sig_ready) e ∙ d.signalled;
  }

  -- The store where a callback or the error has answered.
  abbrev Ready : Code World → Store World → Ptr → Msg → Rpc → Ptr → Store World → Type 0
  Ready code s p m r callback s' =
      (r' : Rpc) × Pending s' p r'
      × (r'.sig_ready ≡ r.sig_ready)
      × IsSignal s' r.sig_ready
      × IsAnswer code s p m r callback s' r'

  answer-Ready :
      (code : Code World) (s : Store World) (p callback : Ptr) (r : Rpc)
      → KeepsRpc code p
      → (t : Pending s p r) → IsSignal s r.sig_ready
      → Returns (answer code s callback p) (λ s'. Ready code s p t.msg r callback s')
  unfolding answer
  answer-Ready code s p callback r keeps t sig = elim (Bool-cases (callback == null)) [
    | inl e ↦ (
      _,
      rw e (set_error_lem handler_not_found t),
      (_, Pending-error handler_not_found t, refl, sig, inl (e, refl, refl)),
    )
    | inr e ↦
        let (s', run, (r', t', same, sig')) = keeps s callback r t sig in
        (s', rw e run, (r', t', same, sig', inr (e, run)))
  ]

  Ready-Answered :
      (code : Code World) (s₁ : Store World) (p callback : Ptr) (m : Msg) (r : Rpc)
      {s : Store World}
      → Ready code s₁ p m r callback s
      → Returns (set_ready s p) (Answered code s₁ p m r callback)
  Ready-Answered code s₁ p callback m r {s} (r', t, same, sig, answered) = (
    record s { signals = put s.signals r'.sig_ready (some true) },
    set_ready_lem t (subst (λ (a : Ptr). IsSignal s a) (sym same) sig),
    record {
      called = s;
      rpc_after = r';
      answered = answered;
      set = ap (λ (a : Ptr). record s { signals = put s.signals a (some true) }) same;
      pending = record { msg = t.msg; here = t.here; is_rpc = t.is_rpc };
      same_signal = same;
      signalled = rw same (put_self s.signals r.sig_ready (some true));
    },
  )

  rpc_steps :
      (code : Code World) {callbacks : Map} {cells : Buckets} (s : Store World)
      {s₁ s₂ s₃ : Store World} (p : Ptr) (q : Msg)
      → IsTable callbacks cells
      → set_error s p (pos 0) ≡ ok s₁
      → request_tag s₁ p ≡ ok q.tag
      → answer code s₁ (or_null (view callbacks cells q.tag)) p ≡ ok s₂
      → set_ready s₂ p ≡ ok s₃
      → on_rpc code callbacks s p ≡ ok s₃
  unfolding on_rpc
  rpc_steps code {callbacks} {cells} s p q table run tag answered ready =
      rw (run, tag, get-view table q.tag, answered) ready

  -- The store that the callback is called on: the request with no error.
  abbrev pub cleared : Store World → Ptr → Msg → Rpc → Store World
  cleared s p m r = with_error s p m r (pos 0)

  -- What the handler leaves of a request whose error it has reset.
  abbrev pub Handled : Code World → Store World → Ptr → Msg → Rpc → Ptr → Store World → Type 0
  Handled code s p m r callback s' =
      let r₁ = no_error_rpc r in Answered code (cleared s p m r) p (with_body m r₁) r₁ callback s'

  -- The handler of a request ends without a fault, sets the signal of the request and does not free
  -- it. It calls the callback that the table has for the tag of what is requested, on the request
  -- with no error; where there is none, the error is TECC_ERR_HANDLER_NOT_FOUND.
  pub on_rpc-Answered :
      (code : Code World) {callbacks : Map} {cells : Buckets} (s : Store World) {p : Ptr} {r : Rpc}
      (q : Msg)
      → IsTable callbacks cells
      → KeepsRpc code p
      → (t : Pending s p r) → IsSignal s r.sig_ready
      → Holds s.msgs r.request q
      → (r.request == p) ≡ false
      → Returns
          (on_rpc code callbacks s p)
          (Handled code s p t.msg r (or_null (view callbacks cells q.tag)))
  on_rpc-Answered code {callbacks} {cells} s {p} {r} q table keeps t sig there apart =
      let t₁ = Pending-error (pos 0) t in
      let s₁ = cleared s p t.msg r in
      let r₁ = no_error_rpc r in
      let callback = or_null (view callbacks cells q.tag) in
      let (s₂, answered, ready) = answer-Ready code s₁ p callback r₁ keeps t₁ sig in
      let (s₃, run, done) = Ready-Answered code s₁ p callback (with_body t.msg r₁) r₁ ready in
      (
        s₃,
        rpc_steps code s p q table (set_error_lem (pos 0) t)
            (request_tag_lem q t₁ (Holds-put_ne p _ there apart)) answered run,
        done,
      )

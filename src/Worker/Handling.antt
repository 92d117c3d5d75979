-- ===== src/Worker/Handling.antt =====
-- The handler of normal messages.
use tecc.Base.{◌≡◌, inl, inr, refl, true, none, ◌==◌, Bool-cases}
use tecc.Base.Heap.{Ptr, null, put, Holds, load_lem, free_lem, put_self}
use tecc.Base.Run.{ok, Returns}
use tecc.Map.Defs.{Map}
use tecc.Map.Table.{Buckets, IsTable, view}
use tecc.Map.Methods.{or_null, get-view}
use tecc.Worker.Messages.{Msg, Store, Code, destruct, msg_free, call_back, on_msg}

module _ {World : Type 0} where
  -- A message with no destructor stands at `p`.
  pub record Plain (s : Store World) (p : Ptr) : Type 0 where
    pub msg : Msg
    pub here : Holds s.msgs p msg
    pub no_destructor : (msg.done == null) ≡ true

  -- A callback ends and leaves its message, without a destructor.
  abbrev pub KeepsMsg : Code World → Ptr → Type 0
  KeepsMsg code p =
      (s : Store World) (callback : Ptr)
      → Plain s p
      → Returns (code.callback callback p s) (λ s'. Plain s' p)

  free_steps :
      (code : Code World) {s : Store World} {p : Ptr} (t : Plain s p)
      → msg_free code s p ≡ ok (record s { msgs = put s.msgs p none })
  unfolding msg_free destruct
  free_steps code t = rw (t.here.not_null, load_lem t.here, t.no_destructor, free_lem t.here)

  msg_steps :
      (code : Code World) {callbacks : Map} {cells : Buckets} (s : Store World) {s₁ : Store World}
      {p : Ptr} {m : Msg}
      → IsTable callbacks cells
      → Holds s.msgs p m
      → call_back code s (or_null (view callbacks cells m.tag)) p ≡ ok s₁
      → Plain s₁ p
      → on_msg code callbacks s p ≡ ok (record s₁ { msgs = put s₁.msgs p none })
  unfolding on_msg
  msg_steps code {callbacks} {cells} s {m} t here called after =
      rw (load_lem here, get-view t m.tag, called) (free_steps code after)

  call_back-Plain :
      (code : Code World) (s : Store World) (p callback : Ptr)
      → KeepsMsg code p
      → Plain s p
      → Returns (call_back code s callback p) (λ s'. Plain s' p)
  unfolding call_back
  call_back-Plain code s p callback keeps t = elim (Bool-cases (callback == null)) [
    | inl e ↦ (s, rw e, t)
    | inr e ↦ let (s', run, t') = keeps s callback t in (s', rw e run, t')
  ]

  -- Where the table of callbacks is well formed and a callback ends and keeps its message: the
  -- handler of a message with no destructor ends without a fault and frees it. It calls the
  -- callback that the table has for its tag, if there is one, and changes nothing else.
  pub on_msg-freed :
      (code : Code World) {callbacks : Map} {cells : Buckets} (s : Store World) {p : Ptr} (m : Msg)
      → IsTable callbacks cells
      → KeepsMsg code p
      → Holds s.msgs p m
      → (m.done == null) ≡ true
      → Returns (on_msg code callbacks s p) λ s'.
        (s'.msgs p ≡ none)
        × ((s₁ : Store World) × (call_back code s (or_null (view callbacks cells m.tag)) p ≡ ok s₁)
            × (s' ≡ record s₁ { msgs = put s₁.msgs p none }))
  on_msg-freed code {callbacks} {cells} s {p} m table keeps here plain =
      let t : Plain s p = record { msg = m; here = here; no_destructor = plain } in
      let (s₁, called, after) =
        call_back-Plain code s p (or_null (view callbacks cells m.tag)) keeps t in
      (_, msg_steps code s table here called after, (put_self s₁.msgs p none, (s₁, called, refl)))

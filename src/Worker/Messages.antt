-- ===== src/Worker/Messages.antt =====
-- tecc_message.h, tecc_rpc.c and tecc_rpc.h: messages in memory, and requests that wait for their
-- answer. A callback is a pointer to code outside the library; what it does with the memory and the
-- rest of the program is a parameter.
use tecc.Base.{Bool, true, [], ◌∷◌, ◌==◌, if◌then◌else◌}
use tecc.Base.Int.{ℤ, pos, negsuc}
use tecc.Base.Heap.{Ptr, null, Heap, load, store, free}
use tecc.Base.Run.{Run, ok, fault, ◌>>=◌}
use tecc.Map.Defs.{Key, Map, same_key, get}

-- The fields of a TecRPC behind its header.
pub record Rpc : Type 0 where
  pub request : Ptr
  pub reply : Ptr
  pub sig_ready : Ptr
  pub error : ℤ

-- What stands behind the header of a message: a TecRPC, or fields that the library never reads.
pub data Body : Type 0 where
  other : Body
  rpc : Rpc → Body

-- A tag is the bytes of its string; `done` is NULL or the destructor.
pub record Msg : Type 0 where
  pub tag : Key
  pub done : Ptr
  pub body : Body

-- The memory of messages, the signals, and the rest of the program.
pub record Store (World : Type 0) : Type 0 where
  pub msgs : Heap Msg
  pub signals : Heap Bool
  pub world : World

-- What the code at an address does to a message: callbacks and destructors.
pub record Code (World : Type 0) : Type 0 where
  pub callback : Ptr → Ptr → Store World → Run (Store World)
  pub destructor : Ptr → Ptr → Store World → Run (Store World)

-- "TecRPC"
abbrev pub rpc_type : Key
rpc_type = 84 ∷ 101 ∷ 99 ∷ 82 ∷ 80 ∷ 67 ∷ []

abbrev pub handler_not_found : ℤ
handler_not_found = negsuc 1

unfoldable pub rpc_init : Ptr → Ptr → Ptr → Msg
rpc_init request reply sig = record {
  tag = rpc_type;
  done = null;
  body = rpc (record { request = request; reply = reply; sig_ready = sig; error = pos 0 });
}

-- The cast to TecRPCPtr, of a message that is one.
unfoldable pub as_rpc : Msg → Run Rpc
as_rpc m = elim m.body [ other ↦ fault | rpc r ↦ ok r ]

module _ {World : Type 0} where
  -- The destructor, where there is one.
  unfoldable pub destruct : Code World → Store World → Ptr → Ptr → Run (Store World)
  destruct code s d p = if d == null then ok s else code.destructor d p s

  unfoldable pub msg_free : Code World → Store World → Ptr → Run (Store World)
  msg_free code s p = if p == null then ok s else do
    m ← load s.msgs p
    s' ← destruct code s m.done p
    h ← free s'.msgs p
    ok (record s' { msgs = h })

  -- TecSignal_set
  unfoldable pub set_signal : Store World → Ptr → Run (Store World)
  set_signal s sig = do h ← store s.signals sig true; ok (record s { signals = h })

  -- The callback for a normal message, where one is registered.
  unfoldable pub call_back : Code World → Store World → Ptr → Ptr → Run (Store World)
  call_back code s callback p = if callback == null then ok s else code.callback callback p s

  unfoldable pub on_msg : Code World → Map → Store World → Ptr → Run (Store World)
  on_msg code callbacks s p = do
    m ← load s.msgs p
    callback ← get callbacks m.tag
    s' ← call_back code s callback p
    msg_free code s' p

  -- rpc->error = err
  unfoldable pub set_error : Store World → Ptr → ℤ → Run (Store World)
  set_error s p err = do
    m ← load s.msgs p
    r ← as_rpc m
    h ← store s.msgs p (record m { body = rpc (record r { error = err }) })
    ok (record s { msgs = h })

  -- The tag of the request.
  unfoldable pub request_tag : Store World → Ptr → Run Key
  request_tag s p = do m ← load s.msgs p; r ← as_rpc m; q ← load s.msgs r.request; ok q.tag

  -- The callback for a request, or the error that there is none.
  unfoldable pub answer : Code World → Store World → Ptr → Ptr → Run (Store World)
  answer code s callback p =
      if callback == null then set_error s p handler_not_found else code.callback callback p s

  -- TecSignal_set(rpc->sig_ready)
  unfoldable pub set_ready : Store World → Ptr → Run (Store World)
  set_ready s p = do m ← load s.msgs p; r ← as_rpc m; set_signal s r.sig_ready

  unfoldable pub on_rpc : Code World → Map → Store World → Ptr → Run (Store World)
  on_rpc code callbacks s p = do
    s₁ ← set_error s p (pos 0)
    tag ← request_tag s₁ p
    callback ← get callbacks tag
    s₂ ← answer code s₁ callback p
    set_ready s₂ p

  unfoldable pub dispatch : Code World → Map → Store World → Ptr → Run (Store World)
  dispatch code callbacks s p = do
    m ← load s.msgs p
    if same_key rpc_type m.tag then on_rpc code callbacks s p else on_msg code callbacks s p

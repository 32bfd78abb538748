-- ===== src/Server/Safety/ReadOnly.antt =====
-- What a request to src/ThingSetServer.cpp cannot write: one application whose state is the values of its
-- nodes.
use thingsetplusplus.Prelude.{◌≡◌, ◌≢◌, refl, ap, ◌∙◌, Bool, true, false, none}
use thingsetplusplus.LinkedList.{Ptr}
use thingsetplusplus.Node.{request_handler}
use thingsetplusplus.RequestContext.{Request}
use thingsetplusplus.Server.State.{App, CallbackReason, will_write}
use thingsetplusplus.Server.Calls.{Server, W, casts}
use thingsetplusplus.Server.Handlers.{is_read_only, handle_request}
use thingsetplusplus.Server.Preserve.{After}
use thingsetplusplus.Server.Safety.Requests.{handle_request-keeps}

-- The state is what each address holds. Encoding and the callbacks leave it as it is, decoding into a
-- node changes that node only, and functions change only the nodes they own.
pub record Cells {E D V : Type 0} (app : App E D (Ptr → V)) (owns : Ptr → Ptr → Bool) : Type 0 where
  pub encode_reads : (n : Ptr) (e : E) (a : Ptr → V) → (app.encode n e a).2 ≡ a
  pub callback_reads :
      (p n : Ptr) (why : CallbackReason) (a : Ptr → V) → (app.invoke_callback p n why a).1 ≡ a
  pub decode_writes : (n m : Ptr) (d : D) (a : Ptr → V) → n ≢ m → (app.decode n d a).2 m ≡ a m
  pub invoke_writes :
      (n m : Ptr) (d : D) (e : E) (a : Ptr → V) → owns n m ≡ false → (app.invoke n d e a).3 m ≡ a m

module _ {E D V : Type 0} (s : Server E D (Ptr → V)) {owns : Ptr → Ptr → Bool}
    (cells : Cells s.app owns) where
  -- If a node shares no write right with the server, no function owns it, no node has a custom handler
  -- and there is no forwarder, then whatever the request, if its handling ends, the node's value is then as
  -- it was; nothing is said of handling that does not end. For an application in which encoding and the
  -- callbacks change no value, decoding into a node changes no other node's value, and a function changes
  -- only the values that it owns.
  pub handle_request-read_only :
      (m : Ptr)
      → is_read_only s m ≡ true
      → ((n : Ptr) → owns n m ≡ false)
      → ((n : Ptr) → casts s n request_handler ≡ false)
      → s.forwarder ≡ none
      → (q : Request) (w : W s) → After (λ a. a m ≡ w.app m) (handle_request s q w)
  handle_request-read_only m readonly unowned uncustom alone q w =
      handle_request-keeps s (λ a. a m ≡ w.app m)
        (λ n e a p. ap (λ f. f m) (cells.encode_reads n e a) ∙ p)
        (λ p n why a h. ap (λ f. f m) (cells.callback_reads p n why a) ∙ h)
        (λ p n d a writable decodes h agreed.
          cells.decode_writes n m d (s.app.invoke_callback p n will_write a).1
            (λ same. let e : is_read_only s n ≡ true = rw same readonly in cc)
          ∙ ap (λ f. f m) (cells.callback_reads p n will_write a)
          ∙ h)
        (λ n d e a allowed runs h. cells.invoke_writes n m d e a (unowned n) ∙ h)
        (λ q' n handles. let e = uncustom n in cc) (λ h some_handler. cc) q w refl

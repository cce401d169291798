-- ===== src/ApprovalApi/Main.antt =====
-- The process of the approval service: `ApprovalService.__init__` and `shutdown`, `serve` and `main` of
-- src/approval_api.py. `ThreadingHTTPServer` and the runtime's own constructor are parameters.
use claudecodenodus.Base.{ℕ, Text, lit, ◌≡◌, refl, ◌∙◌, Option, none, some, ◌++◌}
use claudecodenodus.Exec.{Fault, Result, ok, err}
use claudecodenodus.Exec.Blocks.{Block, pure, lift, ◌>>=◌, ◌>>◌}

-- How `serve_forever` ends.
pub data Ended : Type 0 where
  returned : Ended
  interrupted : Ended
  raised : Fault → Ended

pub record Process (S : Type 0) : Type 1 where
  pub Runtime : Type 0
  pub Server : Type 0
  -- `ResearchRuntime(workspace=workspace, policy=ApprovalPolicy.allow_all())`
  pub new_runtime : Option Text → Block S Runtime
  pub shutdown_runtime : Runtime → Block S (Unit {0})
  -- `ThreadingHTTPServer((host, port), ResearchApprovalHandler)`, which binds the address
  pub listen : Text → ℕ → Block S Server
  -- `server.service = service`, with the runtime of the service
  pub attach : Server → Runtime → Block S (Unit {0})
  pub address_line : Server → Text
  pub print : Text → Block S (Unit {0})
  pub serve_forever : Server → S → Ended × S
  pub shutdown_server : Server → Block S (Unit {0})

module _ {S : Type 0} (P : Process S) where
  open P use {Runtime, Server}

  -- `ApprovalService.__init__`, as far as it concerns the runtime
  unfoldable pub new_service : Option Runtime → Option Text → Block S Runtime
  new_service none workspace = P.new_runtime workspace
  new_service (some runtime) workspace = pure runtime

  unfoldable pub serve : Runtime → Text → ℕ → Block S Server
  serve service host port = do server ← P.listen host port; P.attach server service; pure server

  -- `try: server.serve_forever()` with `except KeyboardInterrupt: pass`
  unfoldable pub caught : Ended → Result Fault (Unit {0})
  caught returned = ok tt
  caught interrupted = ok tt
  caught (raised f) = err f

  -- The block `finally`: an exception of its own takes the place of the first one.
  unfoldable pub finally : Block S (Unit {0}) → Result Fault (Unit {0}) → Block S (Unit {0})
  finally cleanup r = do cleanup; lift r

  unfoldable pub serve_until_stopped : Runtime → Server → Block S (Unit {0})
  serve_until_stopped service server s =
      let (ended, s') = P.serve_forever server s in
      finally (P.shutdown_server server >> P.shutdown_runtime service) (caught ended) s'

  unfoldable pub main : Block S (Unit {0})
  main = do
    service ← new_service none none
    server ← serve service (lit "127.0.0.1") 8000
    P.print (lit "Approval API listening on http://" ++ P.address_line server)
    serve_until_stopped service server

  bound_main :
      (service : Runtime) (server : Server) (s s1 s2 s3 : S)
      → P.new_runtime none s ≡ (ok service, s1)
      → serve service (lit "127.0.0.1") 8000 s1 ≡ (ok server, s2)
      → P.print (lit "Approval API listening on http://" ++ P.address_line server) s2 ≡ (ok tt, s3)
      → main s ≡ serve_until_stopped service server s3
  unfolding main new_service ◌>>=◌
  bound_main service server s s1 s2 s3 a b c = rw (a, b, c) refl

  -- Once the server listens, `main` shuts down the server and then the runtime, however serving ends:
  -- by a return, an interrupt or an exception, which it raises after that.
  main_shuts_down :
      (service : Runtime) (server : Server) (s s1 s2 s3 s4 s5 : S)
      → P.new_runtime none s ≡ (ok service, s1)
      → serve service (lit "127.0.0.1") 8000 s1 ≡ (ok server, s2)
      → P.print (lit "Approval API listening on http://" ++ P.address_line server) s2 ≡ (ok tt, s3)
      → P.shutdown_server server (P.serve_forever server s3).1 ≡ (ok tt, s4)
      → P.shutdown_runtime service s4 ≡ (ok tt, s5)
      → main s ≡ (caught (P.serve_forever server s3).0, s5)
  unfolding serve_until_stopped finally ◌>>=◌
  main_shuts_down service server s s1 s2 s3 s4 s5 a b c d e =
      bound_main service server s s1 s2 s3 a b c ∙ rw (d, e) refl

-- ===== src/Examples/Queues.antt =====
-- The operations on a fresh submission queue.
use puring.Base.{◌≡◌, ◌≢◌, refl, pos, negsuc, [], ◌∷◌, some}
use puring.Uring.{create_sqe}
use puring.Uring.Queue.{blank, pending}
use puring.Timer.{timeout}
use puring.Ops.Request.{fsync, socket, draft, perform}
use puring.Ops.Contract.{queue, earlier}
use puring.Ops.Conforms.{perform-Meets}
use puring.Ops.Refine.{Meets}
use puring.Ops.Results.{Delivered, perform-Delivered}
use puring.Ops.Stray.{prep_socket-stray}
use puring.Ops.Files.{uringio_fsync}
use puring.Ops.Sockets.{prep_socket}
use puring.Examples.{ready, ready-NoReuse, exhausted, no_timeout}

perform-Meets_example :
    Meets ready
      (draft ready (fsync (pos 3)))
      (pos 5)
      no_timeout
      []
      (perform ready (fsync (pos 3)) (pos 5) no_timeout [])
perform-Meets_example = perform-Meets ready ready-NoReuse (pos 5) no_timeout [] (fsync (pos 3))

fsync_ready : (perform ready (fsync (pos 3)) (pos 5) no_timeout []).0 ≡ pos 1
unfolding perform uringio_fsync create_sqe timeout
fsync_ready = refl

fsync_exhausted : (perform exhausted (fsync (pos 3)) (pos 5) no_timeout []).0 ≡ negsuc 0
unfolding perform uringio_fsync create_sqe
fsync_exhausted = refl

fsync_after_socket :
    (perform ready
      (fsync (pos 3))
      (pos 5)
      no_timeout
      (perform ready (socket (pos 1) (pos 1)) (pos 4) no_timeout []).1).0
    ≡ pos 1
unfolding perform uringio_fsync prep_socket create_sqe timeout
fsync_after_socket = refl

perform-Delivered_example :
    Delivered ready
      (pos 5)
      (draft ready (fsync (pos 3)))
      (some 0)
      (ready.submit_result (earlier (perform ready (fsync (pos 3)) (pos 5) no_timeout []).1))
      (queue [])
      (queue (perform ready (fsync (pos 3)) (pos 5) no_timeout []).1)
perform-Delivered_example =
    perform-Delivered ready ready-NoReuse (pos 5) no_timeout [] (fsync (pos 3)) fsync_ready

minus_one : negsuc 0 ≢ pos 1
minus_one h = cc

prep_socket-stray_example :
    pending (perform ready (socket (pos 1) (pos 1)) (pos 4) no_timeout []).1 ≡ blank 0 ∷ []
unfolding pending
prep_socket-stray_example =
    (prep_socket-stray ready ready-NoReuse (pos 1) (pos 1) (pos 4) no_timeout [] 0 refl refl refl).1

-- ===== src/Submit/Lives.antt =====
-- files.c and sockets.c of src/python_api/ops: how a file or a socket enters a block of `async with`, and
-- how it ends. Its loop is an argument, since nothing else reads that field.
use puring.Base.{ℕ, Option, none, some, true}
use puring.Store.{Store, Socket, update, decref?, free?}
use puring.Reader.{Event, set_result, the_file, the_socket}
use puring.Submit.Raw.{set_file_closed}

-- `UringioFile_aenter`: NULL, or the future and what it is told.
unfoldable pub file_aenter : Option ℕ → ℕ → Option (ℕ × Event)
file_aenter none file = none
file_aenter (some future) file = some (future, set_result future (the_file file))

-- `UringioSocket_aenter`
unfoldable pub socket_aenter : Option ℕ → ℕ → Option (ℕ × Event)
socket_aenter none sock = none
socket_aenter (some future) sock = some (future, set_result future (the_socket sock))

-- `UringioFile_clear` and `UringioSocket_clear`: `Py_CLEAR(self->loop)`
abbrev pub clear_loop : Option ℕ → Store → Option ℕ × Store
clear_loop loop s = (none, decref? loop s)

-- `UringioFile_dealloc`, before the memory of the object is handed back.
unfoldable pub file_dealloc : Option ℕ → ℕ → Store → Option ℕ × Store
file_dealloc loop file s = clear_loop loop (set_file_closed file true s)

abbrev pub set_socket : ℕ → Socket → Store → Store
set_socket sock o s = record s { sockets = update s.sockets sock o }

-- `UringioSocket_dealloc`, likewise, with its address.
unfoldable pub socket_dealloc : Option ℕ → ℕ → Store → Option ℕ × Store
socket_dealloc loop sock s =
    let o = s.sockets sock in
    clear_loop loop (free? o.addr (set_socket sock (record o { closed = true; addr = none }) s))

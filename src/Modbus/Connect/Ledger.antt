-- ===== src/Modbus/Connect/Ledger.antt =====
-- What a program holds of the operating system after a sequence of calls.
use modbus_sphere_library.Base.{
  ℕ, suc, ◌-◌, ◌≡◌, refl, List, [], ◌∷◌, ◌++◌, true, ◌==◌, if◌then◌else◌, arith,
}
use modbus_sphere_library.Modbus.Connect.{
  Call, take_handle, free_handle, take_text, free_text, open_socket, close_socket, watch, unwatch,
  open_epoll, close_epoll, start_thread, join_thread,
}

-- Blocks of memory for handles and for texts, open sockets, the descriptors in the epoll set, open
-- epoll descriptors, and threads.
pub record Ledger : Type 0 where
  pub handles : ℕ
  pub texts : ℕ
  pub sockets : List ℕ
  pub watched : List ℕ
  pub epolls : List ℕ
  pub threads : ℕ

-- Without its first occurrence.
unfoldable pub without : ℕ → List ℕ → List ℕ
without x [] = []
without x (y ∷ ys) = let rest = without x ys in if x == y then ys else y ∷ rest

-- A socket that is closed leaves the epoll set.
unfoldable pub after_call : Call → Ledger → Ledger
after_call take_handle l = record l { handles = suc l.handles }
after_call free_handle l = record l { handles = l.handles - 1 }
after_call take_text l = record l { texts = suc l.texts }
after_call free_text l = record l { texts = l.texts - 1 }
after_call (open_socket fd) l = record l { sockets = fd ∷ l.sockets }
after_call (close_socket fd) l = record l {
  sockets = without fd l.sockets;
  watched = without fd l.watched;
}
after_call (watch fd) l = record l { watched = fd ∷ l.watched }
after_call (unwatch fd) l = record l { watched = without fd l.watched }
after_call (open_epoll fd) l = record l { epolls = fd ∷ l.epolls }
after_call (close_epoll fd) l = record l { epolls = without fd l.epolls }
after_call start_thread l = record l { threads = suc l.threads }
after_call join_thread l = record l { threads = l.threads - 1 }

unfoldable pub after_calls : List Call → Ledger → Ledger
unfolding after_call
after_calls [] l = l
after_calls (call ∷ calls) l = after_calls calls (after_call call l)

pub without_self : (x : ℕ) (xs : List ℕ) → without x (x ∷ xs) ≡ xs
unfolding without
without_self x xs = let same : (x == x) ≡ true = ground arith in rw same

pub after_calls-append :
    (xs ys : List Call) (l : Ledger) → after_calls (xs ++ ys) l ≡ after_calls ys (after_calls xs l)
unfolding after_calls
after_calls-append [] ys l = refl
after_calls-append (x ∷ xs) ys l = after_calls-append xs ys (after_call x l)

pub given_back : (n : ℕ) → suc n - 1 ≡ n
given_back n = omega arith

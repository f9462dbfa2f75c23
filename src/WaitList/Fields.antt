-- ===== src/WaitList/Fields.antt =====
-- src/wait_list.rs: what `enqueue` and `dequeue` read and write, the links of the list and of its
-- nodes.
use unsync.Prelude.{Option, none, some, returns, Cmd, and_then}
use unsync.WaitList.Memory.{World, Ptr, load, store, debug_assert, ptr_eq}

module _ {I O W : Type 0} where
  unfoldable pub set_head : Option Ptr → Cmd (World I O W) (Unit {0})
  set_head p s = returns tt (record s { inner = record { head = p; tail = s.inner.tail } })

  unfoldable pub set_tail : Option Ptr → Cmd (World I O W) (Unit {0})
  set_tail p s = returns tt (record s { inner = record { head = s.inner.head; tail = p } })

  -- The pointer that `next` of `prev`, or `head`, is: its value, and a write to it.
  unfoldable pub read_next : Option Ptr → Cmd (World I O W) (Option Ptr)
  unfolding load
  read_next none s = returns s.inner.head s
  read_next (some q) s = and_then (load q s) λ w s'. returns w.next s'

  unfoldable pub write_next : Option Ptr → Option Ptr → Cmd (World I O W) (Unit {0})
  unfolding load store set_head
  write_next none v s = set_head v s
  write_next (some q) v s = and_then (load q s) λ w s'. store q (record w { next = v }) s'

  -- The pointer that `prev` of `next`, or `tail`, is.
  unfoldable pub read_prev : Option Ptr → Cmd (World I O W) (Option Ptr)
  unfolding load
  read_prev none s = returns s.inner.tail s
  read_prev (some q) s = and_then (load q s) λ w s'. returns w.prev s'

  unfoldable pub write_prev : Option Ptr → Option Ptr → Cmd (World I O W) (Unit {0})
  unfolding load store set_tail
  write_prev none v s = set_tail v s
  write_prev (some q) v s = and_then (load q s) λ w s'. store q (record w { prev = v }) s'

  -- `if let Some(prev) = self.tail { debug_assert_eq!(prev.next, None); prev.next = waiter }`
  unfoldable pub link_tail : Option Ptr → Ptr → Cmd (World I O W) (Unit {0})
  unfolding load store
  link_tail none p s = returns tt s
  link_tail (some q) p s = and_then (load q s) λ w s'.
      and_then (debug_assert (ptr_eq w.next none) s')
        λ _ s''. store q (record w { next = some p }) s''

  -- `self.head.get_or_insert(waiter)`
  unfoldable pub get_or_insert_head : Option Ptr → Ptr → Cmd (World I O W) (Unit {0})
  unfolding set_head
  get_or_insert_head none p s = set_head (some p) s
  get_or_insert_head (some h) p s = returns tt s

  unfoldable pub get_head : Cmd (World I O W) (Option Ptr)
  get_head s = returns s.inner.head s

  unfoldable pub get_tail : Cmd (World I O W) (Option Ptr)
  get_tail s = returns s.inner.tail s

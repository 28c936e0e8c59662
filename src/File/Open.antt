-- ===== src/File/Open.antt =====
-- `file_open`: which descriptor is given, and what an error leaves.
use mathlib.Core.Path.{subst}
use nk_os_team.Prelude.{
  ℕ, ◌<◌, ◌≡◌, refl, sym, ap, ◌∙◌, Bool, true, false, Option, none, some, arith, if◌then◌else◌,
  ==_iff, ==_of_ne, lt→ltb, ◌>>=◌,
}
use nk_os_team.File.{
  Ret, ok, err, no_fd, Status, File, Vfs, World, e_inval, e_max_open, fd_none, fd_init, fd_opened,
  fd_closed, is_none, with_file, with_vfs, appends, access, fd_array_alloc, found, find_free,
}
use nk_os_team.File.Calls.{
  Pause, after_open, after_stat, after_close, give_up, set_open, to_end, open_node, open_with,
  file_open,
}
use nk_os_team.File.Table.{IsTable, change-IsTable, full, free, find_free-Search}
use nk_os_team.File.Endings.{
  IsFirst, IsSparing, taken, opened_at, stated_at, closed_at, Result, bad_mode, table_full,
  not_opened, no_size, at_start, at_end, Opens, Ready, given_back, put_in_place, set_pos-Ready,
}
use nk_os_team.File.Close.{same}

module _ {S : Type 0} (V : Vfs S) (nentry : ℕ) where
  module _ (meanwhile : Pause → World S → World S) (w : World S) (path flags : ℕ)
      (h : IsSparing V nentry meanwhile w) where
    pause-Ready :
        (p : Pause) (u : World S) (t : S) (i : ℕ)
        → IsFirst V nentry w i
        → Ready V nentry u i
        → Ready V nentry (meanwhile p (with_vfs V nentry u t)) i
    pause-Ready p u t i f d = record {
      table =
          h.table p (with_vfs V nentry u t)
            (record { in_use = d.table.in_use; each = d.table.each });
      status =
          ap (λ (g : File). g.status) (h.spared p (with_vfs V nentry u t) i f d.status) ∙ d.status;
    }

    to_end-Opens :
        (i n : ℕ) (r x : Bool)
        → IsFirst V nentry w i
        → Ready V nentry (opened_at V nentry meanwhile w path flags i) i
        → access flags ≡ some (r, x)
        → (V.vfs_open w.vfs path flags).1 ≡ ok n
        → appends flags ≡ true
        → let u = opened_at V nentry meanwhile w path flags i in
          Opens V nentry meanwhile w path flags (
            to_end V nentry meanwhile
              (with_file V nentry u i (λ f. record f { pos = 0 }))
              i
              n
              (r, x))
    unfolding to_end
    to_end-Opens i n r x f d a o b =
        let u = opened_at V nentry meanwhile w path flags i in by_stat (V.vop_fstat u.vfs n).1 refl
      where
        ready : Ready V nentry (stated_at V nentry meanwhile w path flags i n) i
        ready =
            let u₀ =
              with_file V nentry (opened_at V nentry meanwhile w path flags i) i
                (λ f. record f { pos = 0 }) in
            pause-Ready after_stat u₀ (V.vop_fstat u₀.vfs n).0 i f
              (set_pos-Ready V nentry i f.0 (opened_at V nentry meanwhile w path flags i) 0 d)

        by_stat :
            (q : Ret)
            → (V.vop_fstat (opened_at V nentry meanwhile w path flags i).vfs n).1 ≡ q
            → Opens V nentry meanwhile w path flags (elim q [
              | err e ↦ give_up V nentry (closed_at V nentry meanwhile w path flags i n) i e
              | ok size ↦
                  set_open V nentry (stated_at V nentry meanwhile w path flags i n) i n size (r, x)
            ])
        by_stat (err e) k =
            let u = stated_at V nentry meanwhile w path flags i n in
            let (w', g, t, m) =
              given_back V nentry i f.0 (closed_at V nentry meanwhile w path flags i n) e
                (pause-Ready after_close u (V.vfs_close u.vfs n) i f ready) in
            (w', err e, g, t, no_size i n e r x f a o b k m)
        by_stat (ok size) k =
            let (w', g, t, m) =
              put_in_place V nentry i f.0 (stated_at V nentry meanwhile w path flags i n) n size r x
                ready in
            (w', ok i, g, t, at_end i n size r x f a o b k m)

    open_node-Opens :
        (i : ℕ) (r x : Bool)
        → IsFirst V nentry w i
        → Ready V nentry (taken V nentry w i) i
        → access flags ≡ some (r, x)
        → Opens V nentry meanwhile w path flags
            (open_node V nentry meanwhile (taken V nentry w i) i path flags (r, x))
    unfolding open_node
    open_node-Opens i r x f d a = by_open (V.vfs_open w.vfs path flags).1 refl
      where
        ready : Ready V nentry (opened_at V nentry meanwhile w path flags i) i
        ready = pause-Ready after_open (taken V nentry w i) (V.vfs_open w.vfs path flags).0 i f d

        by_flags :
            (n : ℕ) (b : Bool)
            → (V.vfs_open w.vfs path flags).1 ≡ ok n
            → appends flags ≡ b
            → let u = opened_at V nentry meanwhile w path flags i in
              Opens V nentry meanwhile w path flags (
                if b
                then to_end V nentry meanwhile
                    (with_file V nentry u i (λ f. record f { pos = 0 }))
                    i
                    n
                    (r, x)
                else set_open V nentry
                    (with_file V nentry u i (λ f. record f { pos = 0 }))
                    i
                    n
                    0
                    (r, x))
        by_flags n true o b = to_end-Opens i n r x f ready a o b
        by_flags n false o b =
            let u = opened_at V nentry meanwhile w path flags i in
            let u₀ = with_file V nentry u i (λ f. record f { pos = 0 }) in
            let (w', g, t, m) =
              put_in_place V nentry i f.0 u₀ n 0 r x (set_pos-Ready V nentry i f.0 u 0 ready) in
            (
              w',
              ok i,
              g,
              t,
              at_start i n r x f a o b (record {
                file = m.file;
                vfs = m.vfs;
                others = λ j k. m.others j k ∙ rw (==_of_ne j i k) refl;
              }),
            )

        by_open :
            (q : Ret)
            → (V.vfs_open w.vfs path flags).1 ≡ q
            → let u = opened_at V nentry meanwhile w path flags i in
              Opens V nentry meanwhile w path flags (elim q [
                | err e ↦ give_up V nentry u i e
                | ok n ↦
                    let w'' = with_file V nentry u i (λ f. record f { pos = 0 }) in
                    if appends flags
                    then to_end V nentry meanwhile w'' i n (r, x)
                    else set_open V nentry w'' i n 0 (r, x)
              ])
        by_open (err e) o =
            let (w', g, t, m) =
              given_back V nentry i f.0 (opened_at V nentry meanwhile w path flags i) e ready in
            (w', err e, g, t, not_opened i e r x f a o m)
        by_open (ok n) o = by_flags n (appends flags) o refl

  none_status : (s : Status) → is_none s ≡ true → s ≡ fd_none
  none_status fd_none e = refl
  none_status fd_init e = absurd (cc e)
  none_status fd_opened e = absurd (cc e)
  none_status fd_closed e = absurd (cc e)

  taken-Ready :
      (w : World S) (i : ℕ)
      → IsTable nentry w
      → IsFirst V nentry w i
      → Ready V nentry (taken V nentry w i) i
  taken-Ready w i v f = record {
    table =
        change-IsTable nentry w (taken V nentry w i) i v refl (λ j n. rw (==_of_ne j i n) refl)
          (rw (same i) ((v.each i f.0).0, rw f.1 at (v.each i f.0).1));
    status = rw (same i) refl;
  }

  found-taken :
      (w : World S) (i : ℕ)
      → (w.files i).open_count ≡ 0
      → found V nentry w i ≡ some (taken V nentry w i, ok i)
  unfolding found
  found-taken w i c = rw (found, (==_iff (w.files i).open_count 0).1 c) refl

  alloc-full :
      (w : World S)
      → 0 < w.files_count
      → find_free V nentry nentry w.files 0 ≡ none
      → fd_array_alloc V nentry w no_fd ≡ some (w, err e_max_open)
  unfolding fd_array_alloc
  alloc-full w h f = rw (lt→ltb 0 w.files_count h, f) refl

  alloc-taken :
      (w : World S) (i : ℕ)
      → 0 < w.files_count
      → find_free V nentry nentry w.files 0 ≡ some i
      → (w.files i).open_count ≡ 0
      → fd_array_alloc V nentry w no_fd ≡ some (taken V nentry w i, ok i)
  unfolding fd_array_alloc
  alloc-taken w i h f c = rw (lt→ltb 0 w.files_count h, f) (found-taken w i c)

  module _ (meanwhile : Pause → World S → World S) (w : World S) (path flags : ℕ) where
    abbrev go_on : Bool × Bool → World S × Ret → Option (World S × Ret)
    go_on modes p = elim p.1 [
      | err e ↦ some (p.0, err e)
      | ok i ↦ open_node V nentry meanwhile p.0 i path flags modes
    ]

    open_with-Opens :
        (r x : Bool)
        → IsTable nentry w
        → IsSparing V nentry meanwhile w
        → access flags ≡ some (r, x)
        → Opens V nentry meanwhile w path flags (open_with V nentry meanwhile w path flags (r, x))
    unfolding open_with
    open_with-Opens r x v h a = elim (find_free-Search V nentry w.files nentry 0) [
      | full f b ↦ (
        w,
        err e_max_open,
        ap (λ o. o >>= go_on (r, x)) (alloc-full w v.in_use f),
        v,
        table_full r x a (λ j l. b j (omega arith) (omega arith)) refl,
      )
      | free k f m l b c ↦
          let s = none_status (w.files k).status b in
          let first : IsFirst V nentry w k = (omega arith, s, λ j m'. c j (omega arith) m') in
          let count : (w.files k).open_count ≡ 0 = rw s at (v.each k first.0).1 in
          subst (Opens V nentry meanwhile w path flags)
            (sym (ap (λ o. o >>= go_on (r, x)) (alloc-taken w k v.in_use f count)))
            (open_node-Opens meanwhile w path flags h k r x first (taken-Ready w k v first) a)
    ]

    -- `file_open` fails no assert, whatever other threads do to the table while it waits for the vfs,
    -- as long as they keep it well-formed and leave the file alone that this thread has taken. The
    -- access mode can be bad, or no descriptor free, and then nothing changes. Else it takes the first
    -- free descriptor; when the vfs cannot open the path, or not tell the size of a file that is opened
    -- to append (the node is closed then), it returns that error, and the descriptor is free again. If
    -- all goes well, the descriptor's file has the node that the vfs opened, the modes asked for, one
    -- holder, and its position at the start, or at the size when it is opened to append. The table is
    -- well-formed after it, and all other files are as this thread found them after its last wait.
    pub file_open_lem :
        IsTable nentry w
        → IsSparing V nentry meanwhile w
        → (w' : World S) × (r : Ret) × (file_open V nentry meanwhile w path flags ≡ some (w', r))
          × IsTable nentry w'
          × Result V nentry meanwhile w path flags w' r
    unfolding file_open
    file_open_lem v h = by_access (access flags) refl
      where
        by_access :
            (a : Option (Bool × Bool))
            → access flags ≡ a
            → Opens V nentry meanwhile w path flags (elim a [
              | none ↦ some (w, err e_inval)
              | some modes ↦ open_with V nentry meanwhile w path flags modes
            ])
        by_access none e = (w, err e_inval, refl, v, bad_mode e refl)
        by_access (some (r, x)) e = open_with-Opens r x v h e

-- ===== src/Net/Conn/Stuck.antt =====
-- conn_unix.go: an entry that has nothing left to be sent stays at the head of the queue.
use nbio.Base.{
  ℕ, zero, suc, ◌≤◌, ◌≡◌, refl, false, ap, ◌∙◌, List, ◌∷◌, [], length, drop, drop_whole, arith,
}
use nbio.Net.Conn.{ToWrite, buffer, file, sys_write, done, Kernel, Conn, Limits, system}
use nbio.Net.Conn.Flush.{out_of_fuel, flush_head, after_head, flush_round, flush_loop, flush}

-- Nothing of the entry is left.
abbrev pub Nothing : ToWrite → Type 0
Nothing (buffer d n) = length d ≤ n
Nothing (file fd n r) = r ≡ 0

module _ {K : Type 0} (o : Kernel K)
    (empty_write : (k : K) → (o.answer (sys_write []) k).1 ≡ done 0) where
  head_stays :
      (c : Conn K) (t : ToWrite) (ts : List ToWrite)
      → c.write_list ≡ t ∷ ts
      → Nothing t
      → ((flush_head o c t ts).1 ≡ done 0) × ((flush_head o c t ts).0.write_list ≡ t ∷ ts)
  unfolding flush_head system
  head_stays c (buffer d n) ts e h =
      let nothing : drop n d ≡ [] = drop_whole n d h in
      rw nothing (ground (arith, empty_write c.kernel))
  head_stays c (file fd n r) ts e h = ground arith

  flush_loop-Nothing :
      (fuel : ℕ) (l : Limits) (c : Conn K) (t : ToWrite) (ts : List ToWrite)
      → c.write_list ≡ t ∷ ts
      → Nothing t
      → flush_loop o fuel l c ≡ out_of_fuel
  unfolding flush_loop
  flush_loop-Nothing zero l c t ts e h = refl
  flush_loop-Nothing (suc fuel) l c t ts e h =
      let q = (flush_head o c t ts).0 in
      let (zero_done, same) = head_stays c t ts e h in
      ap (flush_round o l (flush_loop o fuel l) c) e
      ∙ ap (λ a. after_head o l (flush_loop o fuel l) (q, a)) zero_done
      ∙ flush_loop-Nothing fuel l q t ts same h

  -- On an open connection whose first entry has nothing left to be sent - bytes of which the
  -- offset has reached the end, or no bytes of a file -, flush ends within no number of rounds.
  -- The kernel answers to a write of no bytes that it took none.
  pub flush-Nothing :
      (fuel : ℕ) (l : Limits) (c : Conn K) (t : ToWrite) (ts : List ToWrite)
      → c.closed ≡ false
      → c.write_list ≡ t ∷ ts
      → Nothing t
      → flush o fuel l c ≡ out_of_fuel
  unfolding flush
  flush-Nothing fuel l c t ts open_conn e h =
      let spins = flush_loop-Nothing fuel l c t ts e h in ground arith

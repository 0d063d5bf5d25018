-- ===== src/Programs/Echo/Buffer.antt =====
-- What the buffer of a connection holds (src/examples/echo.rs).
use eveboros.Base.{
  ℕ, ◌+◌, ◌-◌, ◌≤◌, ◌≡◌, sym, ap, ◌∙◌, List, [], ◌++◌, length, take, drop, arith, length-append,
}
use mathlib.Core.List.{append-nil, append_assoc}
use eveboros.Programs.Echo.{Connection, pending}
use eveboros.Programs.Echo.Slices.{take-length, take-drop, drop-drop, length-drop, length-take}

-- All that was read was written, but for what waits in the buffer, and the positions are in the buffer.
pub record Flow {W : Type 0} (input output : W → List ℕ) (c : Connection) (w : W) : Type 0 where
  pub conserved : output w ++ pending c ≡ input w
  pub pos_in : c.buf_pos ≤ c.buf_size
  pub size_in : c.buf_size ≤ length c.buf

-- With the buffer written out, nothing waits.
pending_none : (c : Connection) → c.buf_pos ≡ c.buf_size → pending c ≡ []
pending_none c e =
    let nothing : c.buf_size - c.buf_pos ≡ 0 = omega (arith, e) in
    ap (λ m. take m (drop c.buf_pos c.buf)) nothing

module _ {W : Type 0} {input output : W → List ℕ} where
  -- New bytes are read into an empty buffer.
  pub read_Flow :
      (c : Connection) (data' : List ℕ) (w w' : W)
      → Flow input output c w
      → c.buf_pos ≡ c.buf_size
      → length data' ≤ length c.buf
      → input w' ≡ input w ++ data'
      → output w' ≡ output w
      → Flow input output
          (record c {
            buf_pos = 0;
            buf = data' ++ drop (length data') c.buf;
            buf_size = length data';
          })
          w'
  read_Flow c data' w w' f empty fits came kept =
      let before : output w ≡ input w =
        sym (append-nil (output w))
        ∙ ap (λ xs. output w ++ xs) (sym (pending_none c empty))
        ∙ f.conserved in
      record {
        conserved =
            ap (λ m. output w' ++ take m (data' ++ drop (length data') c.buf)) (omega arith)
            ∙ ap (λ xs. output w' ++ xs) (take-length data' (drop (length data') c.buf))
            ∙ ap (λ xs. xs ++ data') (kept ∙ before)
            ∙ sym came;
        pos_in = omega arith;
        size_in = omega (
          arith,
          length-append data' (drop (length data') c.buf),
          length-drop (length data') c.buf,
        );
      }

  -- The first bytes of the buffer are written.
  pub write_Flow :
      (c : Connection) (n : ℕ) (w w' : W)
      → Flow input output c w
      → n ≤ length (pending c)
      → input w' ≡ input w
      → output w' ≡ output w ++ take n (pending c)
      → Flow input output (record c { buf_pos = c.buf_pos + n }) w'
  write_Flow c n w w' f fits kept sent =
      let fits' : n ≤ c.buf_size - c.buf_pos =
        omega (arith, fits, length-take (c.buf_size - c.buf_pos) (drop c.buf_pos c.buf)) in
      let left : c.buf_size - (c.buf_pos + n) ≡ c.buf_size - c.buf_pos - n = omega arith in
      let c' : Connection = record c { buf_pos = c.buf_pos + n } in
      record {
        conserved =
            ap (λ xs. xs ++ pending c') sent
            ∙ append_assoc (output w) (take n (pending c)) (pending c')
            ∙ ap (λ xs. output w ++ (take n (pending c) ++ xs))
                (ap (λ m. take m (drop (c.buf_pos + n) c.buf)) left
                  ∙ ap (λ xs. take (c.buf_size - c.buf_pos - n) xs)
                      (sym (drop-drop n c.buf_pos c.buf)))
            ∙ ap (λ xs. output w ++ xs)
                (take-drop n (c.buf_size - c.buf_pos) (drop c.buf_pos c.buf) fits')
            ∙ f.conserved
            ∙ sym kept;
        pos_in = omega (arith, f.pos_in, fits');
        size_in = f.size_in;
      }

-- ===== src/Simulator/Steps.antt =====
-- The steps of the loops of modbuscommands.c.
use modbus_sphere_library.Base.{
  ℕ, zero, suc, ◌+◌, ◌*◌, ◌%◌, ◌^◌, ◌&&◌, List, [], ◌∷◌, Bool, true, false, ltb, leb, ◌==◌, length,
  if◌then◌else◌,
}
use modbus_sphere_library.Outcome.{Outcome, Ends, Ends->>=}
use modbus_sphere_library.Memory.{read_byte, read_bytes, write_byte, write_bytes}
use modbus_sphere_library.Simulator.Files.{file_at, file_read, file_write}
use modbus_sphere_library.Simulator.Requests.{read_pair, request_read_loop, copy_sub_request}

pub read_byte-Ends : (xs : List ℕ) (i : ℕ) → Ends (read_byte xs i)
unfolding read_byte
read_byte-Ends [] i = tt
read_byte-Ends (x ∷ xs) zero = tt
read_byte-Ends (x ∷ xs) (suc i) = read_byte-Ends xs i

pub choice-Ends :
    {A : Type 0} (b : Bool) (m k : Outcome A) → Ends m → Ends k → Ends (if b then m else k)
choice-Ends true m k p q = p
choice-Ends false m k p q = q

pub read_bytes-Ends : (xs : List ℕ) (i n : ℕ) → Ends (read_bytes xs i n)
unfolding read_bytes
read_bytes-Ends xs i n = choice-Ends (leb (i + n) (length xs)) _ _ tt tt

pub write_bytes-Ends : (xs : List ℕ) (i : ℕ) (ys : List ℕ) → Ends (write_bytes xs i ys)
unfolding write_bytes
write_bytes-Ends xs i ys = choice-Ends (leb (i + length ys) (length xs)) _ _ tt tt

pub write_byte-Ends : (xs : List ℕ) (i v : ℕ) → Ends (write_byte xs i v)
unfolding write_byte
write_byte-Ends xs i v = write_bytes-Ends xs i (v ∷ [])

pub read_pair-Ends : (xs : List ℕ) (i : ℕ) → Ends (read_pair xs i)
unfolding read_pair
read_pair-Ends xs i =
    Ends->>= (read_byte xs i) _ (read_byte-Ends xs i)
      λ a _. Ends->>= (read_byte xs (i + 1)) _ (read_byte-Ends xs (i + 1)) λ b _. tt

pub copy_sub_request-Ends :
    (xs : List ℕ) (i : ℕ) (ys : List ℕ) (j : ℕ) → Ends (copy_sub_request xs i ys j)
unfolding copy_sub_request
copy_sub_request-Ends xs i ys j = Ends->>= _ _ (read_byte-Ends xs (i + 1)) λ a _.
    Ends->>= _ _ (read_byte-Ends xs (i + 2)) λ b _. Ends->>= _ _ (read_byte-Ends xs (i + 3)) λ c _.
      Ends->>= _ _ (read_byte-Ends xs (i + 4)) λ d _.
        Ends->>= _ _ (read_byte-Ends xs (i + 6)) λ e _. Ends->>= _ _ (write_byte-Ends _ _ _) λ o _.
          Ends->>= _ _ (write_byte-Ends _ _ _) λ o _. Ends->>= _ _ (write_byte-Ends _ _ _) λ o _.
            Ends->>= _ _ (write_byte-Ends _ _ _) λ o _.
              Ends->>= _ _ (write_byte-Ends _ _ _)
                λ o _. Ends->>= _ _ (write_byte-Ends _ _ _) λ o _. write_byte-Ends _ _ _

pub file_at-Ends : (files : List (List ℕ)) (i : ℕ) → Ends (file_at files i)
unfolding file_at
file_at-Ends [] i = tt
file_at-Ends (f ∷ files) zero = tt
file_at-Ends (f ∷ files) (suc i) = file_at-Ends files i

pub file_read-Ends :
    (files : List (List ℕ)) (out : List ℕ) (j f r n : ℕ) → Ends (file_read files out j f r n)
unfolding file_read
file_read-Ends files out j f r n =
    choice-Ends (ltb 0 f && leb f 6) _ _
      (Ends->>= _ _ (file_at-Ends files f) λ file _.
        Ends->>= _ _ (read_bytes-Ends file (r * 2) (n * 2))
          λ bytes _. Ends->>= _ _ (write_bytes-Ends out j bytes) λ o _. tt)
      tt

pub file_write-Ends :
    (files : List (List ℕ)) (xs : List ℕ) (i : ℕ) (out : List ℕ) (j f r n : ℕ)
    → Ends (file_write files xs i out j f r n)
unfolding file_write
file_write-Ends files xs i out j f r n =
    choice-Ends (ltb 0 f && leb f 6) _ _
      (Ends->>= _ _ (file_at-Ends files f) λ file _.
        Ends->>= _ _ (read_bytes-Ends xs i (n * 2)) λ bytes _.
          Ends->>= _ _ (write_bytes-Ends file (r * 2) bytes)
            λ changed _. Ends->>= _ _ (write_bytes-Ends out j bytes) λ o _. tt)
      tt

pub request_read_loop-Ends :
    (files : List (List ℕ)) (xs : List ℕ) (left : ℕ) (out : List ℕ) (i j total ret : ℕ)
    → Ends (request_read_loop files xs left out i j total ret)
unfolding request_read_loop
request_read_loop-Ends files xs zero out i j total ret =
    Ends->>= _ _ (write_byte-Ends out 2 (total % 2 ^ 8)) λ o _. tt
request_read_loop-Ends files xs (suc left) out i j total ret =
    Ends->>= _ _ (read_byte-Ends xs i) λ reference _.
      choice-Ends (reference == 6) _ _
        (Ends->>= _ _ (read_byte-Ends xs (i + 6)) λ n _.
          Ends->>= _ _ (read_pair-Ends xs (i + 1)) λ f _.
            Ends->>= _ _ (read_pair-Ends xs (i + 3)) λ r _.
              choice-Ends (ltb (r + n) 10000) _ _
                (Ends->>= _ _ (write_byte-Ends out j (n * 2 % 2 ^ 8)) λ o _.
                  Ends->>= _ _ (write_byte-Ends o (j + 1) 6) λ o' _.
                    Ends->>= _ _ (file_read-Ends files o' (j + 2) f r n) λ answered _.
                      request_read_loop-Ends files xs left answered.1 (i + 7) (j + (n * 2 + 2))
                        (total + (n * 2 + 2)) answered.0)
                tt)
        tt

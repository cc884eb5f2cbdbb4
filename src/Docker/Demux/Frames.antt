-- ===== src/Docker/Demux/Frames.antt =====
-- The output of an exec is taken apart into the frames that it was put together from.
use remote_ops_mcp.Prelude.{
  ℕ, zero, suc, ◌+◌, ◌/◌, ◌%◌, ◌<◌, ◌≤◌, ◌^◌, String, ◌≡◌, refl, sym, Bool, true, false, List, [],
  ◌∷◌, ◌++◌, leb, if◌then◌else◌, length, take, drop, arith,
}
use remote_ops_mcp.Docker.Requests.{Output}
use remote_ops_mcp.Docker.Demux.{uint32_be, first_byte, add_frame, demux_loop}

length-drop : (n : ℕ) (xs : List ℕ) → n ≤ length xs → length (drop n xs) + n ≡ length xs
length-drop zero xs h = omega arith
length-drop (suc n) [] h = omega arith
length-drop (suc n) (x ∷ xs) h = omega (arith, length-drop n xs (omega arith))

no_frame :
    (utf8 : List ℕ → String) (fuel : ℕ) (body : List ℕ) (o : Output) (frames : ℕ)
    → length body ≤ 0
    → demux_loop utf8 fuel body o frames ≡ (o, frames)
unfolding demux_loop
no_frame utf8 zero body o frames h = refl
no_frame utf8 (suc fuel) body o frames h = ground (arith, h)

same_if :
    {A : Type 0} {x y : A} (z : A) (b : Bool)
    → (b ≡ true → x ≡ y)
    → (if b then x else z) ≡ (if b then y else z)
same_if z true h = h refl
same_if z false h = refl

-- Any two numbers of rounds that are at least the number of bytes give the same result: the loop ends
-- by its own test.
pub demux_loop_enough :
    (utf8 : List ℕ → String) (fuel more : ℕ) (body : List ℕ) (o : Output) (frames : ℕ)
    → length body ≤ fuel
    → length body ≤ more
    → demux_loop utf8 fuel body o frames ≡ demux_loop utf8 more body o frames
unfolding demux_loop
demux_loop_enough utf8 zero more body o frames h k = sym (no_frame utf8 more body o frames h)
demux_loop_enough utf8 (suc fuel) zero body o frames h k = no_frame utf8 (suc fuel) body o frames k
demux_loop_enough utf8 (suc fuel) (suc more) body o frames h k =
    let len = uint32_be (drop 4 body) in
    same_if (o, frames) (leb (8 + len) (length body))
      λ e.
        let shorter = length-drop (8 + len) body (ground (arith, e)) in
        demux_loop_enough utf8 fuel more (drop (8 + len) body)
          (add_frame (first_byte body) (utf8 (take len (drop 8 body))) o) (suc frames) (omega arith)
          (omega arith)

-- The header of a frame: the stream, three zeros, and the length in four bytes.
abbrev pub frame_bytes : ℕ × List ℕ → List ℕ
frame_bytes (stream, payload) =
    let n = length payload in
    stream ∷ 0 ∷ 0 ∷ 0 ∷ n / 16_777_216 ∷ n / 65_536 % 256 ∷ n / 256 % 256 ∷ n % 256 ∷ payload

abbrev pub all_bytes : List (ℕ × List ℕ) → List ℕ
all_bytes [] = []
all_bytes (f ∷ fs) = frame_bytes f ++ all_bytes fs

abbrev pub add_frames : (List ℕ → String) → List (ℕ × List ℕ) → Output → Output
add_frames utf8 [] o = o
add_frames utf8 (f ∷ fs) o = add_frames utf8 fs (add_frame f.0 (utf8 f.1) o)

abbrev pub IsFrame : ℕ × List ℕ → Type 0
IsFrame f = length f.1 < 2 ^ 32

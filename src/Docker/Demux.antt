-- ===== src/Docker/Demux.antt =====
-- `demuxDockerStream` of src/docker/read-proxy.ts: the two streams of an exec, taken apart. A buffer is
-- the list of its bytes.
pub mod Frames
use remote_ops_mcp.Prelude.{
  ℕ, zero, suc, ◌+◌, ◌*◌, String, Bool, List, [], ◌∷◌, eqb, leb, if◌then◌else◌, concat, length,
  take, drop,
}
use remote_ops_mcp.Docker.Requests.{Output}

-- readUInt32BE
unfoldable pub uint32_be : List ℕ → ℕ
uint32_be (a ∷ (b ∷ (c ∷ (d ∷ rest)))) = ((a * 256 + b) * 256 + c) * 256 + d
uint32_be _ = 0

unfoldable pub first_byte : List ℕ → ℕ
first_byte [] = 0
first_byte (b ∷ rest) = b

-- Adds the text of a frame to its stream: 2 is the standard error, any other the standard output.
unfoldable pub add_frame : ℕ → String → Output → Output
add_frame stream text o =
    if eqb stream 2
    then record o { stderr = concat o.stderr text }
    else record o { stdout = concat o.stdout text }

-- The loop, from the bytes that it has not reached, with the streams and the number of frames so
-- far. A round takes 8 bytes at least.
unfoldable pub demux_loop : (List ℕ → String) → ℕ → List ℕ → Output → ℕ → Output × ℕ
unfolding first_byte uint32_be add_frame
demux_loop utf8 zero body o frames = (o, frames)
demux_loop utf8 (suc fuel) body o frames =
    let len = uint32_be (drop 4 body) in
    let rest =
      demux_loop utf8 fuel (drop (8 + len) body)
        (add_frame (first_byte body) (utf8 (take len (drop 8 body))) o) (suc frames) in
    if leb (8 + len) (length body) then rest else (o, frames)

-- Without a frame, all of the body is standard output.
unfoldable pub demux_docker_stream : (List ℕ → String) → List ℕ → Output
unfolding demux_loop
demux_docker_stream utf8 body =
    let (o, frames) = demux_loop utf8 (length body) body (record { stdout = ""; stderr = "" }) 0 in
    if eqb frames 0 then record { stdout = utf8 body; stderr = "" } else o

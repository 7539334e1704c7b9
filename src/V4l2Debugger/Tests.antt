-- ===== src/V4l2Debugger/Tests.antt =====
-- The listing of a camera's formats in buffers of two sizes.
use plat.Base.{ℕ, ◌<◌, ◌≡◌, refl, List, [], ◌∷◌, take, length, arith}
use plat.Base.Text.{Text, codes}
use plat.V4l2Debugger.{failed, gives, Format, dump_formats, hex_digits, hex_digit}
use plat.V4l2Debugger.Listing.{whole_listing, dump_formats-listing}

-- YUYV and MJPG.
abbrev two_formats : List Format
two_formats =
    record { pixelformat = 1448695129; description = codes "YUYV 4:2:2" }
    ∷ record { pixelformat = 1196444237; description = codes "Motion-JPEG" }
    ∷ []

abbrev no_device : ℕ → Text
no_device errno = codes "No such file or directory"

dump_formats-listing_example :
    let (code, text) = dump_formats no_device (codes "/dev/video0") 20 (gives two_formats) in
    (code ≡ 0)
    × (text ≡ take 19 (whole_listing (codes "/dev/video0") two_formats))
    × (length text < 20)
dump_formats-listing_example =
    dump_formats-listing no_device (codes "/dev/video0") 20 two_formats (omega arith)

explained :
    dump_formats no_device (codes "/dev/video0") 20 (failed 2) ≡ (2, codes "open(/dev/video0) f")
unfolding dump_formats
explained = refl

yuyv_code : hex_digits 8 1448695129 [] ≡ codes "56595559"
unfolding hex_digits hex_digit
yuyv_code = refl

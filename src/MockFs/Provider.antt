-- ===== src/MockFs/Provider.antt =====
-- providers/mock.rs: the seeded filesystem, and the methods as a file provider.
use research_ssh_next.Prelude.{Bytes, [], ◌∷◌, codes, replicate}
use research_ssh_next.Fs.{FileProvider}
use research_ssh_next.MockFs.Ops.{
  MockFs, mock_home, read_file, write_file, mkdir, rename, copy, remove,
}
use research_ssh_next.MockFs.Listing.{list_dir, stat}

-- `MockFs::seeded`. The texts of the demo files are ASCII, so their bytes are their code points.
unfoldable pub seeded : MockFs
seeded = record {
  dirs =
      (mock_home, tt)
      ∷ (codes "/home/researcher/data", tt)
      ∷ (codes "/home/researcher/experiments", tt)
      ∷ [];
  files =
      (codes "/home/researcher/train.py", train_py)
      ∷ (codes "/home/researcher/kernel.cpp", kernel_cpp)
      ∷ (codes "/home/researcher/README.md", readme_md)
      ∷ (codes "/home/researcher/results.csv", codes "epoch,loss\n1,0.42\n2,0.31\n")
      ∷ (codes "/home/researcher/model.bin", replicate 2048 0)
      ∷ (codes "/home/researcher/data/run.sh", codes "#!/bin/sh\npython ../train.py\n")
      ∷ [];
}
  where
    train_py : Bytes
    train_py =
        codes
          "import torch\n\ndef main():\n    print('training on the mock cluster')\n\nif __name__ == '__main__':\n    main()\n"

    kernel_cpp : Bytes
    kernel_cpp =
        codes "#include <cstdio>\nint main(){ printf(\"hello from mock\\n\"); return 0; }\n"

    readme_md : Bytes
    readme_md = codes "# Mock workspace\n\nDemo files served by the in-memory mock provider.\n"

-- `impl FileProvider for MockFileProvider`
abbrev pub mock_file_provider : FileProvider MockFs
mock_file_provider = record {
  list_dir = list_dir;
  stat = stat;
  read_file = read_file;
  write_file = write_file;
  rename = rename;
  remove = remove;
  mkdir = mkdir;
  -- the methods have no await, so a dropped future has not begun
  dropped = λ op fs. fs;
  copy = copy;
}
